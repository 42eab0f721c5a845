-- ===== src/Pools/Resize.antt =====
-- pkg/turndown/provider/awsprovider.go and eksprovider.go: resizing pools and back. The two files differ in
-- the names of the provider, so that one model with the key of the tag as an argument serves for both.
pub mod Laws
pub mod Sizes
pub mod Restore
use cluster_turndown.Prelude.{
  String, Bool, Option, none, some, List, [], ◌∷◌, if◌then◌else◌, ℤ, pos, ltb_ℤ, Entries, GoMap,
  lookup, insert, Error,
}
use cluster_turndown.Pools.{NodePool, PoolMaker, PoolResizer}
use cluster_turndown.Pools.Range.{flat_range, expand_range}

-- `AWSNodeGroupPreviousKey`
abbrev pub previous_key : String
previous_key = "cluster.turndown.previous"

abbrev pub turndown_node_label : String
turndown_node_label = "cluster-turndown-node"

-- `toTurndownNodePoolLabels`: the labels that are given are put over the one of the program.
unfoldable pub put_labels : Entries String → Entries String → Entries String
put_labels [] m = m
put_labels ((k, v) ∷ labels) m = put_labels labels (insert k v m)

unfoldable pub to_turndown_node_pool_labels : GoMap String → GoMap String
unfolding put_labels
to_turndown_node_pool_labels labels =
    let given : Entries String = elim labels [ none ↦ [] | some entries ↦ entries ] in
    some (put_labels given ((turndown_node_label, "true") ∷ []))

abbrev pub turndown_pool_name : String
turndown_pool_name = "cluster-turndown"

module _ {W : Type 0} (c : PoolMaker W) where
  pub is_turndown_node_pool : W → Bool
  is_turndown_node_pool w = c.is_node_pool turndown_pool_name w

  pub create_singleton_node_pool : GoMap String → W → Option Error × W
  unfolding to_turndown_node_pool_labels
  create_singleton_node_pool labels = c.create_node_pool (record {
    name = turndown_pool_name;
    machine_type = "t2.small";
    node_count = pos 1;
    disk_type = "gp2";
    disk_size_gb = pos 10;
    labels = to_turndown_node_pool_labels labels;
  })

module _ {W : Type 0} (c : PoolResizer W) where
  -- The pool keeps its sizes from before in a tag; the first error ends the loop.
  unfoldable pub set_node_pool_sizes : List NodePool → ℤ → W → Option Error × List NodePool × W
  set_node_pool_sizes [] size w = (none, [], w)
  set_node_pool_sizes (np ∷ nps) size w =
      let rng = flat_range np.min_nodes np.max_nodes np.node_count in
      let (unsized, w₁) = c.update_node_pool_size np size w in
      elim unsized [
        | some e ↦ (some e, np ∷ nps, w₁)
        | none ↦
            let (untagged, np', w₂) = c.create_or_update_tags np ((previous_key, rng) ∷ []) w₁ in
            elim untagged [
              | some e ↦ (some e, np' ∷ nps, w₂)
              | none ↦
                  let (failed, nps', w₃) = set_node_pool_sizes nps size w₂ in
                  (failed, np' ∷ nps', w₃)
            ]
      ]

  -- A pool without the tag, or with a text that is no range, is passed over. `none` is a panic.
  unfoldable pub reset_node_pool_sizes :
      List NodePool → W → Option (Option Error × List NodePool × W)
  reset_node_pool_sizes [] w = some (none, [], w)
  reset_node_pool_sizes (np ∷ nps) w = elim (lookup previous_key np.tags) [
    | none ↦ elim (reset_node_pool_sizes nps w) [
      | none ↦ none
      | some (failed, nps', w') ↦ some (failed, np ∷ nps', w')
    ]
    | some range_tag ↦ elim (expand_range range_tag) [
      | none ↦ none
      | some (min, max, count) ↦
          if ltb_ℤ count (pos 0)
          then (elim (reset_node_pool_sizes nps w) [
            | none ↦ none
            | some (failed, nps', w') ↦ some (failed, np ∷ nps', w')
          ])
          else (let (unsized, w₁) = c.update_node_pool_size np count w in
              elim unsized [
                | some e ↦ some (some e, np ∷ nps, w₁)
                | none ↦
                    let (kept, np', w₂) = c.delete_tags np (previous_key ∷ []) w₁ in
                    elim kept [
                      | some e ↦ some (some e, np' ∷ nps, w₂)
                      | none ↦ elim (reset_node_pool_sizes nps w₂) [
                        | none ↦ none
                        | some (failed, nps', w₃) ↦ some (failed, np' ∷ nps', w₃)
                      ]
                    ]
              ])
    ]
  ]
