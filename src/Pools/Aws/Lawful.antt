-- ===== src/Pools/Aws/Lawful.antt =====
-- The provider of auto scaling groups, measured by the laws that resizing relies on.
use cluster_turndown.Prelude.{String, ◌≡◌, refl, none, some, List, [], ◌∷◌, ℤ}
use cluster_turndown.Pools.{NodePool}
use cluster_turndown.Pools.Resize.{put_labels}
use cluster_turndown.Pools.Resize.Laws.{Sizes, resized, IsLawful}
use cluster_turndown.Pools.Aws.{
  GroupTag, GroupUpdate, AwsClient, tag_slots, empty_slots, key_tags, delete_keys,
}
use cluster_turndown.Pools.Aws.Calls.{
  update_node_pool_size, update_node_pool_sizes, create_or_update_tags, delete_tags, aws_resizer,
}

-- What the documentation of AWS Auto Scaling says of a group that exists: an update with one number for all
-- sizes gives it that many instances, and its tags have nothing to do with its size.
pub record IsScaling {W : Type 0} (c : AwsClient W) (size_of : W → Sizes) : Type 0 where
  pub updates :
      (name : String) (m n : ℤ) (w : W)
      → size_of w name ≡ some m
      → let r : GroupUpdate = record {
        name = name;
        min_size = n;
        max_size = n;
        desired_capacity = n;
      } in
        ((c.update_auto_scaling_group r w).0 ≡ none)
        × ((asked : String)
            → size_of (c.update_auto_scaling_group r w).1 asked ≡ resized name n (size_of w) asked)
  pub tags :
      (t : GroupTag) (m : ℤ) (w : W)
      → size_of w t.resource_id ≡ some m
      → ((c.create_or_update_tags (some t ∷ []) w).0 ≡ none)
        × ((asked : String)
            → size_of (c.create_or_update_tags (some t ∷ []) w).1 asked ≡ size_of w asked)
  pub untags :
      (t : GroupTag) (m : ℤ) (w : W)
      → size_of w t.resource_id ≡ some m
      → ((c.delete_tags (t ∷ []) w).0 ≡ none)
        × ((asked : String) → size_of (c.delete_tags (t ∷ []) w).1 asked ≡ size_of w asked)

module _ {W : Type 0} (c : AwsClient W) (size_of : W → Sizes) (law : IsScaling c size_of) where
  -- Over a client of working auto scaling groups, the provider resizes a pool that exists and no other, and
  -- sets and takes off a tag of the pool without an effect on sizes, all without an error.
  pub aws_resizer-IsLawful : IsLawful (aws_resizer c) size_of
  unfolding update_node_pool_size create_or_update_tags delete_tags tag_slots empty_slots key_tags
      delete_keys put_labels
  aws_resizer-IsLawful = record {
    resizes = λ np m n w at. law.updates np.name m n w at;
    tags = λ np m k v w at.
        let (fine, same) = law.tags (record { resource_id = np.name; key = k; value = v }) m w at in
        simp (create_or_update_tags, fine) (refl, refl, same);
    untags = λ np m k w at.
        let (fine, same) =
          law.untags (record { resource_id = np.name; key = k; value = "" }) m w at in
        simp (delete_tags, fine) (refl, refl, same);
  }

  -- Of several pools that exist, only the first is resized, and no error is returned.
  pub update_node_pool_sizes-first :
      (np : NodePool) (nps : List NodePool) (m n : ℤ) (w : W)
      → size_of w np.name ≡ some m
      → let (failed, w') = update_node_pool_sizes c (np ∷ nps) n w in
        (failed ≡ none)
        × ((asked : String) → size_of w' asked ≡ resized np.name n (size_of w) asked)
  unfolding update_node_pool_sizes update_node_pool_size
  update_node_pool_sizes-first np nps m n w at =
      let (fine, sizes) = law.updates np.name m n w at in
      simp (update_node_pool_sizes, fine) (refl, sizes)
