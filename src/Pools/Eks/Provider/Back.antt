-- ===== src/Pools/Eks/Provider/Back.antt =====
-- A node group that is turned down and back by pkg/turndown/provider/eksprovider.go.
use cluster_turndown.Prelude.{
  ℕ, String, ◌≡◌, refl, sym, ap, ◌∙◌, inl, inr, true, false, none, some, [], ◌∷◌, arith, str_eq,
  eq_iff, Bool-cases, lookup-insert_self, ℤ, pos, ltb_ℤ, lookup,
}
use cluster_turndown.Strconv.RoundTrip.{IsInt32, to_int32_exact}
use cluster_turndown.Pools.Range.{flat_range}
use cluster_turndown.Pools.Range.RoundTrip.{expand_range-flat_range}
use cluster_turndown.Pools.Resize.Laws.{Sizes, resized}
use cluster_turndown.Pools.Aws.{AutoScalingGroup}
use cluster_turndown.Pools.Eks.{EksNodePool, EksClient, entries_of}
use cluster_turndown.Pools.Eks.Calls.{update_eks_node_pool_size}
use cluster_turndown.Pools.Eks.Calls.Sizes.{IsFronting, update_eks_node_pool_size-resized}
use cluster_turndown.Pools.Eks.Tags.{with_maps}
use cluster_turndown.Pools.Eks.Tags.Restore.{tagged, create-tagged, delete-tagged}
use cluster_turndown.Pools.Eks.Provider.{
  eks_previous_key, eks_sizes, set_eks_pool_sizes, reset_eks_pool_sizes,
}

-- A pool is as it was loaded: the group behind it has the number of nodes of the node group, sizes are int32
-- numbers, and the tag of an earlier turndown is nowhere.
pub record IsLoaded (f : Sizes) (cluster : String) (asg_of arn_of : String → String)
    (np : EksNodePool) (g : AutoScalingGroup) (n : ℕ) : Type 0 where
  pub behind : np.asg ≡ some g
  pub fronted : g.name ≡ asg_of np.ng.name
  pub inside : np.ng.cluster_name ≡ cluster
  pub known_by : np.ng.arn ≡ arn_of np.ng.name
  pub min : IsInt32 g.min_size
  pub max : IsInt32 g.max_size
  pub count : IsInt32 (pos n)
  pub counted : g.desired_capacity ≡ pos n
  pub at : f np.ng.name ≡ some (pos n)
  pub unlabelled : lookup eks_previous_key (entries_of np.ng.labels) ≡ none
  pub fresh : lookup eks_previous_key (entries_of np.ng.tags) ≡ none
  pub untagged : lookup eks_previous_key np.tags ≡ none

-- What the documentation of EKS says of a node group that exists: by its ARN it can be given the tag and the tag
-- can be taken off, which has nothing to do with sizes. `arn_of` is the ARN of a node group.
pub record IsTagging {W : Type 0} (c : EksClient W) (size_of : W → Sizes) (arn_of : String → String)
    : Type 0 where
  pub tags :
      (name value : String) (m : ℤ) (w : W)
      → size_of w name ≡ some m
      → let (failed, v) = c.tag_resource (arn_of name) ((eks_previous_key, value) ∷ []) w in
        (failed ≡ none) × ((asked : String) → size_of v asked ≡ size_of w asked)
  pub untags :
      (name : String) (m : ℤ) (w : W)
      → size_of w name ≡ some m
      → let (failed, v) = c.untag_resource (arn_of name) (eks_previous_key ∷ []) w in
        (failed ≡ none) × ((asked : String) → size_of v asked ≡ size_of w asked)

module _ {W : Type 0} (c : EksClient W) (cluster : String) (size_of : W → Sizes)
    (asg_of arn_of : String → String) (law : IsFronting c cluster size_of asg_of)
    (tagging : IsTagging c size_of arn_of) (np : EksNodePool) (g : AutoScalingGroup) (n : ℕ) (w : W)
    (h : IsLoaded (size_of w) cluster asg_of arn_of np g n) where
  tagged_at :
      (value : String) (m : ℤ) (v : W)
      → size_of v np.ng.name ≡ some m
      → let (failed, v') = c.tag_resource np.ng.arn ((eks_previous_key, value) ∷ []) v in
        (failed ≡ none) × ((asked : String) → size_of v' asked ≡ size_of v asked)
  tagged_at value m v at = rw h.known_by (tagging.tags np.ng.name value m v at)

  untagged_at :
      (m : ℤ) (v : W)
      → size_of v np.ng.name ≡ some m
      → let (failed, v') = c.untag_resource np.ng.arn (eks_previous_key ∷ []) v in
        (failed ≡ none) × ((asked : String) → size_of v' asked ≡ size_of v asked)
  untagged_at m v at = rw h.known_by (tagging.untags np.ng.name m v at)

  own : str_eq np.ng.name np.ng.name ≡ true
  own = (eq_iff np.ng.name np.ng.name).1 refl

  abbrev range : String
  range = flat_range g.min_size g.max_size (pos n)

  sizes_read : eks_sizes np ≡ some (g.min_size, g.max_size, pos n)
  unfolding eks_sizes
  sizes_read =
      rw
        (
          h.behind,
          to_int32_exact g.min_size h.min,
          to_int32_exact g.max_size h.max,
          h.counted,
          to_int32_exact (pos n) h.count,
        )
        refl

  abbrev turned_down : W → EksNodePool × W
  turned_down w₁ = (
    tagged c np eks_previous_key range w₁,
    (c.tag_resource np.ng.arn ((eks_previous_key, range) ∷ []) w₁).1,
  )

  set_down :
      (size : ℤ) (w₁ : W)
      → update_eks_node_pool_size c np size w ≡ some (none, w₁)
      → size_of w₁ np.ng.name ≡ some size
      → set_eks_pool_sizes c (np ∷ []) size w
        ≡ some (none, (turned_down w₁).0 ∷ [], (turned_down w₁).1)
  unfolding set_eks_pool_sizes
  set_down size w₁ down at =
      rw (set_eks_pool_sizes, sizes_read, down)
        (simp (create-tagged c np eks_previous_key range w₁ (tagged_at range size w₁ at).0))

  set_back :
      (u w₁ w₂ : W)
      → update_eks_node_pool_size c (tagged c np eks_previous_key range u) (pos n) w₁
        ≡ some (none, w₂)
      → size_of w₂ np.ng.name ≡ some (pos n)
      → reset_eks_pool_sizes c (tagged c np eks_previous_key range u ∷ []) w₁
        ≡ some (none, with_maps np ∷ [], (c.untag_resource np.ng.arn (eks_previous_key ∷ []) w₂).1)
  unfolding reset_eks_pool_sizes tagged
  set_back u w₁ w₂ up at =
      let counted : ltb_ℤ (pos n) (pos 0) ≡ false = ground arith in
      rw
        (
          reset_eks_pool_sizes,
          lookup-insert_self eks_previous_key range np.tags,
          expand_range-flat_range g.min_size g.max_size (pos n) h.min h.max h.count,
          counted,
          up,
        )
        (simp (
          delete-tagged c np eks_previous_key range u w₂ h.unlabelled h.fresh h.untagged
            (untagged_at (pos n) w₂ at).0))

  -- Sizes that are changed for one name and changed back are as they were.
  sizes_back :
      (f₁ f₂ : Sizes)
      → ((asked : String) → f₁ asked ≡ resized np.ng.name (pos 0) (size_of w) asked)
      → ((asked : String) → f₂ asked ≡ resized np.ng.name (pos n) f₁ asked)
      → (asked : String) → f₂ asked ≡ size_of w asked
  sizes_back f₁ f₂ down up asked = elim (Bool-cases (str_eq np.ng.name asked)) [
    | inl same ↦ up asked ∙ rw same (sym h.at ∙ ap (size_of w) ((eq_iff np.ng.name asked).0 same))
    | inr other ↦ up asked ∙ rw other (down asked ∙ rw other refl)
  ]

  -- Over clients that resize the node groups of a cluster as documented, and tag and untag those that exist
  -- without an effect on sizes: a node group of that cluster that is as it was loaded and is set to no nodes has
  -- none, and no other node group changes; when it is reset in the world that this leaves, every node group has
  -- as many nodes as before, and the pool in memory is as it was, but for labels and tags that were nil and are
  -- empty. Neither call panics or returns an error. Nothing is said of the bounds of the groups in the cloud.
  pub reset_eks_pool_sizes-set_eks_pool_sizes :
      (np₁ : EksNodePool) × (w₁ : W) × (w₂ : W) × (set_eks_pool_sizes c (np ∷ []) (pos 0) w
        ≡ some (none, np₁ ∷ [], w₁))
      × ((asked : String) → size_of w₁ asked ≡ resized np.ng.name (pos 0) (size_of w) asked)
      × (reset_eks_pool_sizes c (np₁ ∷ []) w₁ ≡ some (none, with_maps np ∷ [], w₂))
      × ((asked : String) → size_of w₂ asked ≡ size_of w asked)
  unfolding tagged with_maps
  reset_eks_pool_sizes-set_eks_pool_sizes =
      let (u, down, sized) =
        update_eks_node_pool_size-resized c cluster size_of asg_of law np g (pos n) 0 w h.behind
          h.fronted h.inside h.at in
      let (np₁, w₁) = turned_down u in
      let at_u : size_of u np.ng.name ≡ some (pos 0) = sized np.ng.name ∙ rw own refl in
      let empty : (asked : String)
          → size_of w₁ asked ≡ resized np.ng.name (pos 0) (size_of w) asked =
        λ asked. (tagged_at range (pos 0) u at_u).1 asked ∙ sized asked in
      let at₁ : size_of w₁ np.ng.name ≡ some (pos 0) = empty np.ng.name ∙ rw own refl in
      let (v, up, sized') =
        update_eks_node_pool_size-resized c cluster size_of asg_of law np₁ g (pos 0) n w₁ h.behind
          h.fronted h.inside at₁ in
      let at_v : size_of v np.ng.name ≡ some (pos n) = sized' np.ng.name ∙ rw own refl in
      let w₂ = (c.untag_resource np.ng.arn (eks_previous_key ∷ []) v).1 in
      (
        np₁,
        w₁,
        w₂,
        set_down (pos 0) u down at_u,
        empty,
        set_back u w₁ v up at_v,
        sizes_back (size_of w₁) (size_of w₂) empty
            (λ asked. (untagged_at (pos n) v at_v).1 asked ∙ sized' asked),
      )
