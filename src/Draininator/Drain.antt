-- ===== src/Draininator/Drain.antt =====
-- pkg/cluster/draininator.go: a node is cordoned, and its pods are evicted or deleted.
pub mod Refusal
use Prim.Native.String.{◌++◌ as str_append}
use cluster_turndown.Prelude.{
  ℕ, String, Bool, true, false, ◌&&◌, ◌||◌, Option, none, some, List, [], ◌∷◌, str_eq,
  if◌then◌else◌, Error, Result, ok, err,
}
use cluster_turndown.Kube.{Node, Client}
use cluster_turndown.Patcher.{patch_node}
use cluster_turndown.Draininator.{ApiGroup, ApiResource, PodClient, Draininator, pods_to_delete}
use cluster_turndown.Draininator.Evictions.{evict_pods, delete_pods}

unfoldable pub policy_version : List ApiGroup → Option String
policy_version [] = none
policy_version (g ∷ gs) =
    if str_eq g.name "policy" then some g.preferred_version else policy_version gs

unfoldable pub has_eviction : List ApiResource → Bool
has_eviction [] = false
has_eviction (r ∷ rs) =
    (str_eq r.name "pods/eviction" && str_eq r.kind "Eviction") || has_eviction rs

abbrev pub wrapped : String → Error → Error
wrapped prefix e = record e { message = str_append prefix e.message }

unfoldable pub set_unschedulable : Node → Node × Option Error
set_unschedulable n = (record n { unschedulable = true }, none)

module _ {W : Type 0} (c : PodClient W) where
  -- The group version of the policy, empty where there are no evictions.
  unfoldable pub is_eviction_available : W → Result String
  unfolding policy_version has_eviction
  is_eviction_available w = elim (c.server_groups w) [
    | err e ↦ err e
    | ok groups ↦ elim (policy_version groups) [
      | none ↦ ok ""
      | some version ↦ elim (c.server_resources_for "v1" w) [
        | err e ↦ err e
        | ok resources ↦ ok (if has_eviction resources then version else "")
      ]
    ]
  ]

  unfoldable pub cordon_node : Client W Node → Draininator → W → Option Error × W
  unfolding patch_node set_unschedulable
  cordon_node nodes d w = elim (c.get_node d.node w) [
    | err e ↦ (some e, w)
    | ok n ↦
        if n.unschedulable
        then (none, w)
        else (let (sent, w') = patch_node nodes n set_unschedulable w in
            (elim sent [ ok _ ↦ none | err e ↦ some e ], w'))
  ]

  unfoldable pub delete_pods_on_node : Draininator → Bool → List ℕ → W → Option Error × W
  unfolding pods_to_delete is_eviction_available evict_pods delete_pods
  delete_pods_on_node d is_nil schedule w = elim (pods_to_delete c d w) [
    | err e ↦ (some (wrapped "retrieving pods to delete: " e), w)
    | ok [] ↦ (none, w)
    | ok (p ∷ ps) ↦ elim (is_eviction_available w) [
      | err e ↦ (some (wrapped "checking if eviction is available: " e), w)
      | ok version ↦
          if str_eq version ""
          then delete_pods c d is_nil schedule (p ∷ ps) w
          else evict_pods c d is_nil schedule (p ∷ ps) version w
    ]
  ]

  unfoldable pub drain : Client W Node → Draininator → Bool → List ℕ → W → Option Error × W
  unfolding cordon_node delete_pods_on_node
  drain nodes d is_nil schedule w =
      let (failed, w₁) = cordon_node nodes d w in
      elim failed [
        | some e ↦ (some (wrapped (str_append "cordoning node '" (str_append d.node "': ")) e), w₁)
        | none ↦
            let (kept, w₂) = delete_pods_on_node d is_nil schedule w₁ in
            elim kept [
              | some e ↦ (
                some (wrapped (str_append "deleting Pods on node '" (str_append d.node "': ")) e),
                w₂,
              )
              | none ↦ (none, w₂)
            ]
      ]
