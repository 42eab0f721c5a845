-- ===== src/Pools/Resize/Restore.antt =====
-- Pools that are resized and then reset.
use cluster_turndown.Prelude.{
  String, ◌≡◌, refl, ap, ◌∙◌, inl, inr, false, none, some, List, [], ◌∷◌, map, str_eq, Bool-cases,
  All, lookup-insert_self, ℤ, pos, ltb_ℤ, lookup, insert, without, without-insert_absent,
}
use cluster_turndown.Strconv.RoundTrip.{IsInt32}
use cluster_turndown.Pools.{NodePool, PoolResizer}
use cluster_turndown.Pools.Range.{flat_range}
use cluster_turndown.Pools.Range.RoundTrip.{expand_range-flat_range}
use cluster_turndown.Pools.Resize.{previous_key, set_node_pool_sizes, reset_node_pool_sizes}
use cluster_turndown.Pools.Resize.Sizes.{Among, DiffersAt, SetTo, SetTo-step, DiffersAt-step}
use cluster_turndown.Pools.Resize.Laws.{Sizes, resized, with_tags, IsLawful}

-- A pool is as it was loaded: the world has it with its number of nodes, its sizes are int32 numbers, and
-- the tag of an earlier turndown is not there.
pub record IsLoaded (f : Sizes) (np : NodePool) : Type 0 where
  pub at : f np.name ≡ some np.node_count
  pub min : IsInt32 np.min_nodes
  pub max : IsInt32 np.max_nodes
  pub count : IsInt32 np.node_count
  pub counted : ltb_ℤ np.node_count (pos 0) ≡ false
  pub untagged : lookup previous_key np.tags ≡ none

-- The pool with its sizes in the tag.
tagged : NodePool → NodePool
tagged np =
    with_tags np (insert previous_key (flat_range np.min_nodes np.max_nodes np.node_count) np.tags)

module _ {W : Type 0} (c : PoolResizer W) (size_of : W → Sizes) (law : IsLawful c size_of) where
  abbrev Exists : W → NodePool → Type 0
  Exists w np = (m : ℤ) × (size_of w np.name ≡ some m)

  -- Resizing one pool keeps them all in existence.
  resized-Exists :
      (np other : NodePool) (n : ℤ) (w w' : W)
      → ((name : String) → size_of w' name ≡ resized np.name n (size_of w) name)
      → Exists w other
      → Exists w' other
  resized-Exists np other n w w' same (m, at) = elim (Bool-cases (str_eq np.name other.name)) [
    | inl h ↦ (n, same other.name ∙ simp h)
    | inr h ↦ (m, same other.name ∙ simp (h, at))
  ]

  kept-Exists :
      (w w' : W)
      → ((name : String) → size_of w' name ≡ size_of w name)
      → (np : NodePool) → Exists w np
      → Exists w' np
  kept-Exists w w' same np (m, at) = (m, same np.name ∙ at)

  every_Exists :
      (w w' : W)
      → ((np : NodePool) → Exists w np → Exists w' np)
      → (nps : List NodePool) → All (Exists w) nps
      → All (Exists w') nps
  every_Exists w w' step [] a = tt
  every_Exists w w' step (np ∷ nps) a = (step np a.0, every_Exists w w' step nps a.1)

  -- One round of either loop, where no call fails.
  set_step :
      (np : NodePool) (nps : List NodePool) (n : ℤ) (w : W)
      → (let (unsized, w₁) = c.update_node_pool_size np n w in
          let rng = flat_range np.min_nodes np.max_nodes np.node_count in
          let (untagged, np', w₂) = c.create_or_update_tags np ((previous_key, rng) ∷ []) w₁ in
          (unsized ≡ none)
          → (untagged ≡ none)
          → (np' ≡ tagged np)
          → let (failed, nps', w₃) = set_node_pool_sizes c nps n w₂ in
            set_node_pool_sizes c (np ∷ nps) n w ≡ (failed, tagged np ∷ nps', w₃))
  unfolding set_node_pool_sizes
  set_step np nps n w a b e = simp (set_node_pool_sizes, a, b, e)

  reset_step :
      (np : NodePool) (nps : List NodePool) (f : Sizes) (w : W)
      → IsLoaded f np
      → (let (unsized, w₁) = c.update_node_pool_size (tagged np) np.node_count w in
          let (kept, np', w₂) = c.delete_tags (tagged np) (previous_key ∷ []) w₁ in
          (unsized ≡ none)
          → (kept ≡ none)
          → (np' ≡ np)
          → (nps' : List NodePool) (w₃ : W) → reset_node_pool_sizes c nps w₂ ≡ some (none, nps', w₃)
          → reset_node_pool_sizes c (tagged np ∷ nps) w ≡ some (none, np ∷ nps', w₃))
  unfolding reset_node_pool_sizes tagged
  reset_step np nps f w loaded a b e nps' w₃ rest =
      let rng = flat_range np.min_nodes np.max_nodes np.node_count in
      simp (
        reset_node_pool_sizes,
        lookup-insert_self previous_key rng np.tags,
        expand_range-flat_range np.min_nodes np.max_nodes np.node_count loaded.min loaded.max
            loaded.count,
        loaded.counted,
        a,
        b,
        e,
        rest,
      )

  -- The tag is taken off again.
  untagged :
      (f : Sizes) (np : NodePool)
      → IsLoaded f np
      → with_tags np (without previous_key (tagged np).tags) ≡ np
  unfolding tagged
  untagged f np loaded =
      let rng = flat_range np.min_nodes np.max_nodes np.node_count in
      ap (with_tags np) (without-insert_absent previous_key rng np.tags loaded.untagged)

  set_pools :
      (n : ℤ) (nps : List NodePool) (w : W)
      → All (Exists w) nps
      → let (failed, nps', w') = set_node_pool_sizes c nps n w in
        (failed ≡ none) × (nps' ≡ map tagged nps) × SetTo n nps (size_of w) (size_of w')
  unfolding set_node_pool_sizes SetTo tagged
  set_pools n [] w a = (refl, refl, λ name. inr (refl, λ never. never))
  set_pools n (np ∷ nps) w a =
      let (m, at) = a.0 in
      let w₁ = (c.update_node_pool_size np n w).1 in
      let (unsized, sized) = law.resizes np m n w at in
      let (m₁, at₁) = resized-Exists np np n w w₁ sized a.0 in
      let rng = flat_range np.min_nodes np.max_nodes np.node_count in
      let w₂ = (c.create_or_update_tags np ((previous_key, rng) ∷ []) w₁).2 in
      let (untagged, with_tag, same) = law.tags np m₁ previous_key rng w₁ at₁ in
      let later =
        every_Exists w w₂ (λ o e. kept-Exists w₁ w₂ same o (resized-Exists np o n w w₁ sized e)) nps
          a.1 in
      let (fine, pools, sizes) = set_pools n nps w₂ later in
      rw (set_step np nps n w unsized untagged with_tag) (
        fine,
        ap (λ ps. tagged np ∷ ps) pools,
        SetTo-step n np nps (size_of w) (size_of w₂) _ (λ name. same name ∙ sized name) sizes,
      )

  reset_pools :
      (f : Sizes) (nps : List NodePool) (w : W)
      → All (IsLoaded f) nps
      → All (Exists w) nps
      → DiffersAt nps f (size_of w)
      → (w' : W) × (reset_node_pool_sizes c (map tagged nps) w ≡ some (none, nps, w'))
        × ((name : String) → size_of w' name ≡ f name)
  unfolding reset_node_pool_sizes DiffersAt Among tagged
  reset_pools f [] w loaded exist differs =
      (w, refl, λ name. elim (differs name) [ inl same ↦ same | inr never ↦ absurd never ])
  reset_pools f (np ∷ nps) w loaded exist differs =
      let (m, at) = exist.0 in
      let w₁ = (c.update_node_pool_size (tagged np) np.node_count w).1 in
      let (unsized, sized) = law.resizes (tagged np) m np.node_count w at in
      let (m₁, at₁) = resized-Exists np np np.node_count w w₁ sized exist.0 in
      let w₂ = (c.delete_tags (tagged np) (previous_key ∷ []) w₁).2 in
      let (kept, no_tag, same) = law.untags (tagged np) m₁ previous_key w₁ at₁ in
      let later =
        every_Exists w w₂
          (λ o e. kept-Exists w₁ w₂ same o (resized-Exists np o np.node_count w w₁ sized e)) nps
          exist.1 in
      let (w₃, done, restored) = reset_pools f nps w₂ loaded.1 later (
        DiffersAt-step f np nps (size_of w) (size_of w₂) loaded.0.at
          (λ name. same name ∙ sized name) differs) in
      (
        w₃,
        reset_step np (map tagged nps) f w loaded.0 unsized kept (no_tag ∙ untagged f np loaded.0)
            nps w₃ done,
        restored,
      )

  exist_of_loaded :
      (w : W) (nps : List NodePool) → All (IsLoaded (size_of w)) nps → All (Exists w) nps
  exist_of_loaded w [] a = tt
  exist_of_loaded w (np ∷ nps) a = ((np.node_count, a.0.at), exist_of_loaded w nps a.1)

  -- After a resize and a reset of the pools that it gave back, both without an error and the reset without
  -- a panic, the pools are those that were loaded, the tags included, and every pool of the cluster has the
  -- number of nodes that it had; in between, each of the resized ones had the size that was asked for, and
  -- any pool has either that size or its own. The pools are loaded ones, of a lawful provider.
  pub reset_node_pool_sizes-set_node_pool_sizes :
      (n : ℤ) (nps : List NodePool) (w : W)
      → All (IsLoaded (size_of w)) nps
      → let (failed, nps', w₁) = set_node_pool_sizes c nps n w in
        (failed ≡ none)
        × SetTo n nps (size_of w) (size_of w₁)
        × ((w₂ : W) × (reset_node_pool_sizes c nps' w₁ ≡ some (none, nps, w₂))
            × ((name : String) → size_of w₂ name ≡ size_of w name))
  unfolding DiffersAt SetTo
  reset_node_pool_sizes-set_node_pool_sizes n nps w loaded =
      let (fine, pools, sizes) = set_pools n nps w (exist_of_loaded w nps loaded) in
      let w₁ = (set_node_pool_sizes c nps n w).2 in
      let there = every_Exists w w₁ (still sizes) nps (exist_of_loaded w nps loaded) in
      let (w₂, done, restored) = reset_pools (size_of w) nps w₁ loaded there (differs sizes) in
      (fine, sizes, (w₂, rw (pools) done, restored))
    where
      differs : {g : Sizes} → SetTo n nps (size_of w) g → DiffersAt nps (size_of w) g
      differs sizes name = elim (sizes name) [
        | inl (is, among) ↦ inr among
        | inr (same, absent) ↦ inl same
      ]

      still :
          {w₁ : W}
          → SetTo n nps (size_of w) (size_of w₁)
          → (np : NodePool) → Exists w np
          → Exists w₁ np
      still sizes np (m, at) = elim (sizes np.name) [
        | inl (is, among) ↦ (n, is)
        | inr (same, absent) ↦ (m, same ∙ at)
      ]
