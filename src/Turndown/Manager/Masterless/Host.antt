-- ===== src/Turndown/Manager/Masterless/Host.antt =====
-- The node that the turndown pod is moved to, and its taint.
use cluster_turndown.Prelude.{
  String, ◌≡◌, refl, ap, ◌∙◌, inl, inr, true, false, none, some, List, [], ◌∷◌, ◌++◌, arith, eq_iff,
  Bool-cases, GoMap, ok,
}
use cluster_turndown.Kube.{Node, Taint, Client, node_names}
use cluster_turndown.Kube.Stored.{Serves, SameName, Absent}
use cluster_turndown.Patcher.{patch_node, patch_object, is_no_updates}
use cluster_turndown.Patcher.Loop.{patched, patch_object-objects, patch_object-answer}
use cluster_turndown.Turndown.Manager.Environment.{Surroundings}
use cluster_turndown.Turndown.Manager.Masterless.{
  HostProvider, masterless_taint_key, has_taint, add_taint, host_node, create_or_get_host_node,
}

has_taint-append :
    (k : String) (ts : List Taint) (t : Taint) → t.key ≡ k → has_taint k (ts ++ t ∷ []) ≡ true
unfolding has_taint
has_taint-append k [] t h = ground (arith, h, eq_iff t.key k)
has_taint-append k (u ∷ ts) t h = ground (arith, has_taint-append k ts t h)

add_taint-taints : (n : Node) → has_taint masterless_taint_key (add_taint n).0.taints ≡ true
unfolding add_taint
add_taint-taints n = elim (Bool-cases (has_taint masterless_taint_key n.taints)) [
  | inl has ↦ rw (has, add_taint) has
  | inr lacks ↦ rw (lacks, add_taint) (has_taint-append masterless_taint_key n.taints _ refl)
]

module _ {W : Type 0} {client : Client W Node} {objects : W → List Node}
    (sv : Serves client node_names objects) (s : Surroundings W) (h : HostProvider W)
    (labels : GoMap String) where
  patched_host :
      (w w₁ : W) (n : Node)
      → host_node client s h labels w ≡ some (ok n, w₁)
      → create_or_get_host_node client s h labels w
        ≡ some (patch_object client node_names n add_taint w₁)
  unfolding create_or_get_host_node patch_node
  patched_host w w₁ n found = rw (found, create_or_get_host_node) refl

  has_already :
      (n : Node) (w : W)
      → has_taint masterless_taint_key n.taints ≡ true
      → patch_object client node_names n add_taint w ≡ (ok n, w)
  unfolding patch_object add_taint is_no_updates
  has_already n w has = ground (arith, has, sv.encodes n)

  added : (n : Node) → has_taint masterless_taint_key n.taints ≡ false → (add_taint n).1 ≡ none
  unfolding add_taint
  added n lacks = rw (lacks, add_taint) refl

  same_name : (n : Node) → SameName node_names n (add_taint n).0
  unfolding add_taint
  same_name n = ground arith

  -- Where a host is found or made and is stored, it is returned with the taint, and stored so, in its
  -- place; other nodes stay, and a node that has the taint already is not sent.
  pub create_or_get_host_node-tainted :
      (w w₁ : W) (n : Node) (pre post : List Node)
      → host_node client s h labels w ≡ some (ok n, w₁)
      → objects w₁ ≡ pre ++ n ∷ post
      → Absent node_names n pre
      → (m : Node) × (w₂ : W) × (create_or_get_host_node client s h labels w ≡ some (ok m, w₂))
        × (has_taint masterless_taint_key m.taints ≡ true)
        × (objects w₂ ≡ pre ++ m ∷ post)
        × (has_taint masterless_taint_key n.taints ≡ true → (m ≡ n) × (w₂ ≡ w₁))
  create_or_get_host_node-tainted w w₁ n pre post found here absent =
      elim (Bool-cases (has_taint masterless_taint_key n.taints)) [
        | inl has ↦ (
          n,
          w₁,
          patched_host w w₁ n found ∙ ap some (has_already n w₁ has),
          has,
          here,
          λ _. (refl, refl),
        )
        | inr lacks ↦
            let r = patch_object client node_names n add_taint w₁ in
            let answer =
              patch_object-answer sv add_taint n w₁ pre post (added n lacks) (same_name n) here
                absent in
            (
              (add_taint n).0,
              r.1,
              patched_host w w₁ n found ∙ ap (λ a. some (a, r.1)) answer,
              add_taint-taints n,
              patch_object-objects sv add_taint n w₁ pre post (same_name n) here absent
                  ∙ rw (added n lacks, patched) refl,
              λ has. absurd (cc (has, lacks)),
            )
      ]
