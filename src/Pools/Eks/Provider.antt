-- ===== src/Pools/Eks/Provider.antt =====
-- pkg/turndown/provider/eksprovider.go: what turndown makes of node groups, over the methods of
-- pkg/cluster/provider/eksclusterprovider.go, which can panic: `none`. The number of nodes of a pool is read
-- of the auto scaling group behind it.
pub mod Back
use cluster_turndown.Prelude.{
  String, Bool, false, Option, none, some, List, [], ◌∷◌, if◌then◌else◌, ℤ, pos, ltb_ℤ, GoMap,
  lookup, Error,
}
use cluster_turndown.Strconv.{to_int32}
use cluster_turndown.Pools.Range.{flat_range, expand_range}
use cluster_turndown.Pools.Resize.{turndown_pool_name, to_turndown_node_pool_labels}
use cluster_turndown.Pools.Eks.{EksNodePool, EksClient, EksClusterData}
use cluster_turndown.Pools.Eks.Calls.{
  is_eks_node_pool, create_eks_node_pool, update_eks_node_pool_size,
}
use cluster_turndown.Pools.Eks.Tags.{create_or_update_eks_tags, delete_eks_tags}

abbrev pub eks_previous_key : String
eks_previous_key = "cluster.turndown.previous"

-- Minimum, maximum and number of nodes.
unfoldable pub eks_sizes : EksNodePool → Option (ℤ × ℤ × ℤ)
eks_sizes np = elim (np.asg) [
  | none ↦ none
  | some g ↦ some (to_int32 g.min_size, to_int32 g.max_size, to_int32 g.desired_capacity)
]

-- What a loop returns, with the pool that it has passed.
abbrev passed :
    {W : Type 0}
    → EksNodePool
    → Option (Option Error × List EksNodePool × W)
    → Option (Option Error × List EksNodePool × W)
passed np none = none
passed np (some (failed, nps, w)) = some (failed, np ∷ nps, w)

module _ {W : Type 0} (c : EksClient W) where
  -- The first error ends the loop.
  unfoldable pub set_eks_pool_sizes :
      List EksNodePool → ℤ → W → Option (Option Error × List EksNodePool × W)
  unfolding eks_sizes update_eks_node_pool_size create_or_update_eks_tags
  set_eks_pool_sizes [] size w = some (none, [], w)
  set_eks_pool_sizes (np ∷ nps) size w = elim (eks_sizes np) [
    | none ↦ none
    | some (min, max, count) ↦ elim (update_eks_node_pool_size c np size w) [
      | none ↦ none
      | some (some e, w₁) ↦ some (some e, np ∷ nps, w₁)
      | some (none, w₁) ↦
          let (failed, np', w₂) =
            create_or_update_eks_tags c np false ((eks_previous_key, flat_range min max count) ∷ [])
              w₁ in
          elim failed [
            | some e ↦ some (some e, np' ∷ nps, w₂)
            | none ↦ passed np' (set_eks_pool_sizes nps size w₂)
          ]
    ]
  ]

  -- A pool without the tag, or with a text that is no range, is passed over.
  unfoldable pub reset_eks_pool_sizes :
      List EksNodePool → W → Option (Option Error × List EksNodePool × W)
  unfolding update_eks_node_pool_size delete_eks_tags
  reset_eks_pool_sizes [] w = some (none, [], w)
  reset_eks_pool_sizes (np ∷ nps) w = elim (lookup eks_previous_key np.tags) [
    | none ↦ passed np (reset_eks_pool_sizes nps w)
    | some range_tag ↦ elim (expand_range range_tag) [
      | none ↦ none
      | some (min, max, count) ↦
          let skipped = passed np (reset_eks_pool_sizes nps w) in
          if ltb_ℤ count (pos 0) then skipped else (elim (update_eks_node_pool_size c np count w) [
            | none ↦ none
            | some (some e, w₁) ↦ some (some e, np ∷ nps, w₁)
            | some (none, w₁) ↦
                let (failed, np', w₂) = delete_eks_tags c np (eks_previous_key ∷ []) w₁ in
                elim failed [
                  | some e ↦ some (some e, np' ∷ nps, w₂)
                  | none ↦ passed np' (reset_eks_pool_sizes nps w₂)
                ]
          ])
    ]
  ]

module _ {W : Type 0} (c : EksClient W) (known : EksClusterData) where
  unfoldable pub is_eks_turndown_pool : W → Bool
  unfolding is_eks_node_pool
  is_eks_turndown_pool w = is_eks_node_pool c known turndown_pool_name w

  unfoldable pub create_eks_singleton : GoMap String → W → Option Error × W
  unfolding create_eks_node_pool to_turndown_node_pool_labels
  create_eks_singleton labels = create_eks_node_pool c known (record {
    name = turndown_pool_name;
    machine_type = "t2.small";
    node_count = pos 1;
    disk_type = "gp2";
    disk_size_gb = pos 10;
    labels = to_turndown_node_pool_labels labels;
  })
