-- ===== src/Pools/Eks/Tags/Restore.antt =====
-- A tag of a node group that is set and taken off.
use cluster_turndown.Prelude.{
  String, ◌≡◌, false, none, some, [], ◌∷◌, lookup-insert_self, lookup, insert, without_absent,
  without-insert_absent,
}
use cluster_turndown.Pools.Resize.{put_labels}
use cluster_turndown.Pools.Aws.{delete_keys}
use cluster_turndown.Pools.Eks.{EksNodePool, EksClient, entries_of}
use cluster_turndown.Pools.Eks.Tags.{with_maps, keys_in, create_or_update_eks_tags, delete_eks_tags}

module _ {W : Type 0} (c : EksClient W) (np : EksNodePool) (k v : String) (w : W) where
  -- The pool with the tag.
  unfoldable pub tagged : EksNodePool
  tagged = record (with_maps np) {
    ng = record (with_maps np).ng { tags = some (insert k v (entries_of np.ng.tags)) };
    tags = insert k v np.tags;
  }

  pub create-tagged :
      (c.tag_resource np.ng.arn ((k, v) ∷ []) w).0 ≡ none
      → create_or_update_eks_tags c np false ((k, v) ∷ []) w
        ≡ (none, tagged, (c.tag_resource np.ng.arn ((k, v) ∷ []) w).1)
  unfolding create_or_update_eks_tags tagged put_labels
  create-tagged sent = simp (create_or_update_eks_tags, sent)

  pub delete-tagged :
      (w₁ : W)
      → lookup k (entries_of np.ng.labels) ≡ none
      → lookup k (entries_of np.ng.tags) ≡ none
      → lookup k np.tags ≡ none
      → (c.untag_resource np.ng.arn (k ∷ []) w₁).0 ≡ none
      → delete_eks_tags c tagged (k ∷ []) w₁
        ≡ (none, with_maps np, (c.untag_resource np.ng.arn (k ∷ []) w₁).1)
  unfolding delete_eks_tags tagged delete_keys keys_in with_maps entries_of
  delete-tagged w₁ unlabelled fresh absent sent = simp (
    delete_eks_tags,
    keys_in,
    unlabelled,
    lookup-insert_self k v (entries_of np.ng.tags),
    sent,
    without-insert_absent k v (entries_of np.ng.tags) fresh,
    without-insert_absent k v np.tags absent,
    without_absent k (entries_of np.ng.labels) unlabelled,
  )

  module _ (unlabelled : lookup k (entries_of np.ng.labels) ≡ none)
      (fresh : lookup k (entries_of np.ng.tags) ≡ none) (absent : lookup k np.tags ≡ none)
      (sets : (c.tag_resource np.ng.arn ((k, v) ∷ []) w).0 ≡ none)
      (unsets : (w₁ : W) → (c.untag_resource np.ng.arn (k ∷ []) w₁).0 ≡ none) where
    -- A key that neither the pool nor its node group has, in labels or tags, is set by one call of the
    -- service and taken off by one more, where these calls succeed: the pool has its value in between, and
    -- is afterwards as it was, except that labels and tags that were nil are empty.
    pub delete_tags-create_or_update_tags :
        (np₁ : EksNodePool) × (create_or_update_eks_tags c np false ((k, v) ∷ []) w
          ≡ (none, np₁, (c.tag_resource np.ng.arn ((k, v) ∷ []) w).1))
        × (lookup k np₁.tags ≡ some v)
        × ((w₁ : W)
            → delete_eks_tags c np₁ (k ∷ []) w₁
              ≡ (none, with_maps np, (c.untag_resource np.ng.arn (k ∷ []) w₁).1))
    unfolding tagged
    delete_tags-create_or_update_tags = (
      tagged,
      create-tagged sets,
      lookup-insert_self k v np.tags,
      λ w₁. delete-tagged w₁ unlabelled fresh absent (unsets w₁),
    )
