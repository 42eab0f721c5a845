-- ===== src/Pools/Eks/Tags.antt =====
-- pkg/cluster/provider/eksclusterprovider.go: the tags of a node group.
pub mod Restore
use cluster_turndown.Prelude.{
  String, Bool, Option, none, some, List, [], ◌∷◌, if◌then◌else◌, Entries, lookup, Error,
}
use cluster_turndown.Pools.Resize.{put_labels}
use cluster_turndown.Pools.Aws.{delete_keys}
use cluster_turndown.Pools.Eks.{
  EksNodePool, EksClient, entries_of, put_node_labels, remove_node_labels,
}

-- Nil labels and tags are made empty maps.
unfoldable pub with_maps : EksNodePool → EksNodePool
unfolding entries_of
with_maps np = record np {
  ng = record np.ng {
    labels = some (entries_of np.ng.labels);
    tags = some (entries_of np.ng.tags);
  };
}

-- The keys of a list that are in a map.
unfoldable pub keys_in : Entries String → List String → List String
keys_in m [] = []
keys_in m (k ∷ ks) = elim (lookup k m) [ none ↦ keys_in m ks | some v ↦ k ∷ keys_in m ks ]

module _ {W : Type 0} (c : EksClient W) where
  -- The call of the labels does not name the node group, and its error comes after the maps are written.
  unfoldable pub create_or_update_eks_tags :
      EksNodePool → Bool → Entries String → W → Option Error × EksNodePool × W
  unfolding with_maps put_labels entries_of
  create_or_update_eks_tags np update_nodes tags w =
      let np₁ = with_maps np in
      if update_nodes
      then (let (failed, w') =
            c.update_nodegroup_config (put_node_labels np.ng.cluster_name tags) w in
          (
            failed,
            record np₁ {
              ng = record np₁.ng { labels = some (put_labels tags (entries_of np.ng.labels)) };
              tags = put_labels tags np.tags;
            },
            w',
          ))
      else (let (failed, w') = c.tag_resource np.ng.arn tags w in
          elim failed [
            | some e ↦ (some e, np₁, w')
            | none ↦ (
              none,
              record np₁ {
                ng = record np₁.ng { tags = some (put_labels tags (entries_of np.ng.tags)) };
                tags = put_labels tags np.tags;
              },
              w',
            )
          ])

  -- Nothing is sent where there is nothing to delete.
  untag : String → List String → W → Option Error × W
  untag arn [] w = (none, w)
  untag arn (k ∷ ks) w = c.untag_resource arn (k ∷ ks) w

  unlabel : String → List String → W → Option Error × W
  unlabel cluster [] w = (none, w)
  unlabel cluster (k ∷ ks) w = c.update_nodegroup_config (remove_node_labels cluster (k ∷ ks)) w

  unfoldable pub delete_eks_tags : EksNodePool → List String → W → Option Error × EksNodePool × W
  unfolding with_maps keys_in untag unlabel delete_keys entries_of
  delete_eks_tags np keys w =
      let np₁ = with_maps np in
      let (tagged, w₁) = untag np.ng.arn (keys_in (entries_of np.ng.tags) keys) w in
      elim tagged [
        | some e ↦ (some e, np₁, w₁)
        | none ↦
            let (labelled, w₂) =
              unlabel np.ng.cluster_name (keys_in (entries_of np.ng.labels) keys) w₁ in
            elim labelled [
              | some e ↦ (some e, np₁, w₂)
              | none ↦ (
                none,
                record np₁ {
                  ng = record np₁.ng {
                    labels = some (delete_keys keys (entries_of np.ng.labels));
                    tags = some (delete_keys keys (entries_of np.ng.tags));
                  };
                  tags = delete_keys keys np.tags;
                },
                w₂,
              )
            ]
      ]
