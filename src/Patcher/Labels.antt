-- ===== src/Patcher/Labels.antt =====
-- pkg/cluster/patcher/patcher.go: the labels of a node that is stored, and has a label already.
use cluster_turndown.Prelude.{
  String, ◌≡◌, refl, sym, ap, ◌∙◌, false, Option, none, some, List, [], ◌∷◌, ◌++◌, GoMap, lookup,
  without-insert_absent, get, put, delete, Error, ok,
}
use cluster_turndown.Kube.{Node, Client, node_names}
use cluster_turndown.Kube.Stored.{Serves, SameName, Absent}
use cluster_turndown.Patcher.{
  patch_object, has_no_labels, set_label, remove_label, update_node_label, delete_node_label,
  patch_node,
}
use cluster_turndown.Patcher.Loop.{patched, patch_object-objects, patch_object-answer}

has_no_labels-present :
    (m : GoMap String) (j v : String) → get m j ≡ some v → has_no_labels m ≡ false
unfolding has_no_labels lookup
has_no_labels-present none j v h = absurd (cc h)
has_no_labels-present (some []) j v h = absurd (cc h)
has_no_labels-present (some (e ∷ es)) j v h = refl

abbrev pub labelled : String → String → Node → Node
labelled k x n = record n { labels = put n.labels k x }

abbrev pub unlabelled : String → Node → Node
unlabelled k n = record n { labels = delete n.labels k }

delete-put :
    (m : GoMap String) (j v k x : String)
    → get m j ≡ some v
    → get m k ≡ none
    → delete (put m k x) k ≡ m
delete-put none j v k x h g = absurd (cc h)
delete-put (some es) j v k x h g = ap some (without-insert_absent k x es g)

module _ (n : Node) (j v k : String) (has : get n.labels j ≡ some v) where
  -- A label that is put on and taken off.
  pub unlabelled-labelled : (x : String) → get n.labels k ≡ none → unlabelled k (labelled k x n) ≡ n
  unlabelled-labelled x lacks =
      ap (λ (l : GoMap String). record n { labels = l }) (delete-put n.labels j v k x has lacks)

  set_label-present : (x : String) → set_label k x n ≡ (labelled k x n, none)
  unfolding set_label
  set_label-present x = simp (set_label, has_no_labels-present n.labels j v has)

  remove_label-present : remove_label k n ≡ (unlabelled k n, none)
  unfolding remove_label
  remove_label-present = simp (remove_label, has_no_labels-present n.labels j v has)

  module _ {W : Type 0} {c : Client W Node} {objects : W → List Node}
      (sv : Serves c node_names objects) (w : W) (pre post : List Node)
      (here : objects w ≡ pre ++ n ∷ post) (absent : Absent node_names n pre) where
    changed :
        (change : Node → Node × Option Error) (n' : Node)
        → change n ≡ (n', none)
        → n.name ≡ n'.name
        → ((patch_object c node_names n change w).0 ≡ ok n')
          × (objects (patch_object c node_names n change w).1 ≡ pre ++ n' ∷ post)
    changed change n' e same =
        let kept : SameName node_names n (change n).0 = (refl, same ∙ sym (ap (λ r. r.0.name) e)) in
        (
          patch_object-answer sv change n w pre post (ap (λ r. r.1) e) kept here absent
              ∙ ap (λ r. ok r.0) e,
          patch_object-objects sv change n w pre post kept here absent
              ∙ ap (λ m. pre ++ m ∷ post) (rw (ap (λ r. r.1) e, patched) (ap (λ r. r.0) e)),
        )

    pub update_node_label-objects :
        (x : String)
        → ((update_node_label c n k x w).0 ≡ ok (labelled k x n))
          × (objects (update_node_label c n k x w).1 ≡ pre ++ labelled k x n ∷ post)
    unfolding update_node_label patch_node
    update_node_label-objects x =
        changed (set_label k x) (labelled k x n) (set_label-present x) refl

    pub delete_node_label-objects :
        objects (delete_node_label c n k w).1 ≡ pre ++ unlabelled k n ∷ post
    unfolding delete_node_label patch_node
    delete_node_label-objects =
        (changed (remove_label k) (unlabelled k n) remove_label-present refl).1
