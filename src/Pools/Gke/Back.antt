-- ===== src/Pools/Gke/Back.antt =====
-- Pools of GKE that are resized and then reset.
use text.Mathlib.TextLemmas.{append_assoc as str_assoc}
use cluster_turndown.Prelude.{
  ℕ, zero, suc, String, ◌≡◌, refl, ap, ◌∙◌, subst, inl, inr, false, none, some, List, [], ◌∷◌, map,
  str_eq, ◌==◌, Bool-cases, length, All, ℤ, pos, ltb_ℤ,
}
use cluster_turndown.Pools.{NodePool}
use cluster_turndown.Pools.Resize.Laws.{Sizes, resized}
use cluster_turndown.Tasks.Goroutines.{ended, select_wait}
use cluster_turndown.Tasks.Goroutines.Ends.{Ends, ended-Ends, All-Ends}
use cluster_turndown.Pools.Resize.Sizes.{
  Among, DiffersAt, SetTo, SetTo-step, SetTo-same, DiffersAt-step, Among-done, Among-all_done,
}
use cluster_turndown.Pools.Gke.{
  GkeNodePool, GkeClient, retry, resize_gke_pool, to_node_pool_resource,
}
use cluster_turndown.Pools.Gke.Calls.{
  GkeMetadata, cluster_resource_path, pool_resource_by_name, each_gke_size, update_gke_pool_sizes,
  resize_gke_pools, set_gke_pool_sizes, reset_gke_pool_sizes,
}

-- The pool, as its interface shows it.
abbrev pub shown : GkeNodePool → NodePool
shown np = record {
  name = np.name;
  min_nodes = np.min;
  max_nodes = np.max;
  node_count = np.count;
  auto_scaling = np.auto_scaling;
  tags = np.tags;
}

-- A pool of the program's project, zone and cluster.
abbrev pub IsOf : GkeMetadata → GkeNodePool → Type 0
IsOf d np = (np.project ≡ d.project_id) × (np.zone ≡ d.master_zone) × (np.cluster_id ≡ d.cluster_id)

-- The two ways in which the program names the resource of a pool agree.
to_node_pool_resource-by_name :
    (d : GkeMetadata) (np : GkeNodePool)
    → IsOf d np
    → to_node_pool_resource np ≡ pool_resource_by_name d np.name
unfolding to_node_pool_resource pool_resource_by_name cluster_resource_path
to_node_pool_resource-by_name d np (project, zone, cluster) =
    rw (project, zone, cluster) (simp (str_assoc) refl)

-- What the documentation of the SDK says of the request for a pool by the path of its resource: a pool of the
-- cluster that exists gets a number of nodes of at least 0, and no other.
abbrev pub Resizes : {W : Type 0} → GkeClient W → GkeMetadata → (W → Sizes) → Type 0
Resizes {W} c d size_of =
    (pool : String) (m n : ℤ) (w : W)
    → size_of w pool ≡ some m
    → ltb_ℤ n (pos 0) ≡ false
    → let (failed, w') = c.set_node_pool_size (pool_resource_by_name d pool) n w in
      (failed ≡ none) × ((name : String) → size_of w' name ≡ resized pool n (size_of w) name)

module _ {W : Type 0} (c : GkeClient W) (d : GkeMetadata) (size_of : W → Sizes)
    (law : Resizes c d size_of) where
  abbrev Exists : W → GkeNodePool → Type 0
  Exists w p = (m : ℤ) × (size_of w p.name ≡ some m) × IsOf d p

  -- A pool of the cluster that is as it was loaded.
  abbrev pub IsLoaded : W → GkeNodePool → Type 0
  IsLoaded w p = (size_of w p.name ≡ some p.count) × (ltb_ℤ p.count (pos 0) ≡ false) × IsOf d p

  resize_gke_pool-once :
      (waits : ℕ) (np : GkeNodePool) (n : ℤ) (w : W)
      → (c.set_node_pool_size (to_node_pool_resource np) n w).0 ≡ none
      → (resize_gke_pool c waits np n w).1 ≡ (c.set_node_pool_size (to_node_pool_resource np) n w).1
  unfolding resize_gke_pool retry
  resize_gke_pool-once zero np n w fine = rw (fine, retry) refl
  resize_gke_pool-once (suc waits) np n w fine = rw (fine, retry) refl

  granted :
      (np : GkeNodePool) (m n : ℤ) (w : W)
      → size_of w np.name ≡ some m
      → IsOf d np
      → ltb_ℤ n (pos 0) ≡ false
      → let (failed, w') = c.set_node_pool_size (to_node_pool_resource np) n w in
        (failed ≡ none) × ((name : String) → size_of w' name ≡ resized np.name n (size_of w) name)
  granted np m n w at own n_ok =
      rw (to_node_pool_resource-by_name d np own) (law np.name m n w at n_ok)

  sized :
      (waits : ℕ) (np : GkeNodePool) (m n : ℤ) (w : W)
      → size_of w np.name ≡ some m
      → IsOf d np
      → ltb_ℤ n (pos 0) ≡ false
      → (name : String)
      → size_of (resize_gke_pool c waits np n w).1 name ≡ resized np.name n (size_of w) name
  sized waits np m n w at own n_ok name =
      let (fine, same) = granted np m n w at own n_ok in
      ap (λ v. size_of v name) (resize_gke_pool-once waits np n w fine) ∙ same name

  resized-Exists :
      (np : GkeNodePool) (n : ℤ) (w w' : W)
      → ((name : String) → size_of w' name ≡ resized np.name n (size_of w) name)
      → (ps : List GkeNodePool) → All (Exists w) ps
      → All (Exists w') ps
  resized-Exists np n w w' same [] a = tt
  resized-Exists np n w w' same (p ∷ ps) ((m, at, own), a) = (
    elim (Bool-cases (str_eq np.name p.name)) [
      | inl h ↦ (n, same p.name ∙ simp h, own)
      | inr h ↦ (m, same p.name ∙ simp (h, at), own)
    ],
    resized-Exists np n w w' same ps a,
  )

  each-SetTo :
      (waits : GkeNodePool → ℕ) (n : ℤ) (n_ok : ltb_ℤ n (pos 0) ≡ false) (ps : List GkeNodePool)
      (w : W)
      → All (Exists w) ps
      → SetTo n (map shown ps) (size_of w) (size_of (each_gke_size c (λ np. n) waits ps w))
  unfolding each_gke_size SetTo
  each-SetTo waits n n_ok [] w a = λ name. inr (refl, λ never. never)
  each-SetTo waits n n_ok (np ∷ ps) w ((m, at, own), a) =
      let w₁ = (resize_gke_pool c (waits np) np n w).1 in
      let same = sized (waits np) np m n w at own n_ok in
      SetTo-step n (shown np) (map shown ps) (size_of w) (size_of w₁) _ same
        (each-SetTo waits n n_ok ps w₁ (resized-Exists np n w w₁ same ps a))

  abbrev CountsBack : Sizes → GkeNodePool → Type 0
  CountsBack f p = (f p.name ≡ some p.count) × (ltb_ℤ p.count (pos 0) ≡ false)

  each-back :
      (waits : GkeNodePool → ℕ) (f : Sizes) (ps : List GkeNodePool) (w : W)
      → All (CountsBack f) ps
      → All (Exists w) ps
      → DiffersAt (map shown ps) f (size_of w)
      → (name : String) → size_of (each_gke_size c (λ np. np.count) waits ps w) name ≡ f name
  unfolding each_gke_size DiffersAt Among
  each-back waits f [] w loaded a differs name = elim (differs name) [
    | inl same ↦ same
    | inr never ↦ absurd never
  ]
  each-back waits f (np ∷ ps) w ((at_first, count_ok), loaded) ((m, at, own), a) differs name =
      let w₁ = (resize_gke_pool c (waits np) np np.count w).1 in
      let same = sized (waits np) np m np.count w at own count_ok in
      each-back waits f ps w₁ loaded (resized-Exists np np.count w w₁ same ps a)
        (DiffersAt-step f (shown np) (map shown ps) (size_of w) (size_of w₁) at_first same differs)
        name

  exist_of_loaded : (w : W) (ps : List GkeNodePool) → All (IsLoaded w) ps → All (Exists w) ps
  exist_of_loaded w [] a = tt
  exist_of_loaded w (p ∷ ps) ((at, count_ok, own), a) = ((p.count, at, own), exist_of_loaded w ps a)

  counts_of_loaded :
      (w : W) (ps : List GkeNodePool) → All (IsLoaded w) ps → All (CountsBack (size_of w)) ps
  counts_of_loaded w [] a = tt
  counts_of_loaded w (p ∷ ps) ((at, count_ok, own), a) = ((at, count_ok), counts_of_loaded w ps a)

  every_Exists :
      (w w' : W)
      → ((p : GkeNodePool) → Exists w p → Exists w' p)
      → (ps : List GkeNodePool) → All (Exists w) ps
      → All (Exists w') ps
  every_Exists w w' step [] a = tt
  every_Exists w w' step (p ∷ ps) a = (step p a.0, every_Exists w w' step ps a.1)

  -- The names of the pools that were to be set are among those of the pools that end.
  each_gke_size-SetTo :
      (waits : GkeNodePool → ℕ) (n : ℤ) (n_ok : ltb_ℤ n (pos 0) ≡ false) (finished : List ℕ)
      (nps : List GkeNodePool) (w : W)
      → (ended finished nps).1 ≡ []
      → All (Exists w) nps
      → SetTo n
          (map shown nps)
          (size_of w)
          (size_of (each_gke_size c (λ np. n) waits (ended finished nps).0 w))
  each_gke_size-SetTo waits n n_ok finished nps w none_left a =
      let done = (ended finished nps).0 in
      let e = ended-Ends finished nps in
      let e' : Ends [] nps done = subst (λ left. Ends left nps done) none_left e in
      SetTo-same n (map shown done) (map shown nps) _ _ (λ name. Among-done shown name e)
        (λ name. Among-all_done shown name e')
        (each-SetTo waits n n_ok done w (All-Ends (Exists w) e a))

  module _ (n : ℤ) (n_ok : ltb_ℤ n (pos 0) ≡ false) (nps resets : List GkeNodePool)
      (waits waits' : GkeNodePool → ℕ) (finished finished' : List ℕ) (w : W)
      (some_pools : (length nps == 0) ≡ false) (some_resets : (length resets == 0) ≡ false)
      (all_set : (ended finished nps).1 ≡ []) (all_reset : (ended finished' resets).1 ≡ [])
      (loaded : All (IsLoaded w) nps) (resets_loaded : All (IsLoaded w) resets)
      (covers : (name : String) → Among name (map shown nps) → Among name (map shown resets)) where
    abbrev after_set : W
    after_set = each_gke_size c (λ np. n) waits (ended finished nps).0 w

    abbrev reset_pools : List GkeNodePool
    reset_pools = (ended finished' resets).0

    set_sizes : SetTo n (map shown nps) (size_of w) (size_of after_set)
    set_sizes =
        each_gke_size-SetTo waits n n_ok finished nps w all_set (exist_of_loaded w nps loaded)

    still : (p : GkeNodePool) → Exists w p → Exists after_set p
    unfolding SetTo
    still p (m, at, own) = elim (set_sizes p.name) [
      | inl (is, among) ↦ (n, is, own)
      | inr (same, absent) ↦ (m, same ∙ at, own)
    ]

    all_resets : Ends [] resets reset_pools
    all_resets =
        subst (λ left. Ends left resets reset_pools) all_reset (ended-Ends finished' resets)

    differs : DiffersAt (map shown reset_pools) (size_of w) (size_of after_set)
    unfolding SetTo DiffersAt
    differs name = elim (set_sizes name) [
      | inl (is, among) ↦ inr (Among-all_done shown name all_resets (covers name among))
      | inr (same, absent) ↦ inl same
    ]

    reset_sizes :
        (name : String)
        → size_of (each_gke_size c (λ np. np.count) waits' reset_pools after_set) name
          ≡ size_of w name
    reset_sizes =
        let at_first = All-Ends (IsLoaded w) all_resets resets_loaded in
        each-back waits' (size_of w) reset_pools after_set (counts_of_loaded w reset_pools at_first)
          (every_Exists w after_set still reset_pools (exist_of_loaded w reset_pools at_first))
          differs

    -- Where every request for a number of at least 0 is granted at once to a pool of the cluster that exists,
    -- the goroutines of all pools end in time, in any order, and `Wait` returns the channel rather than nil:
    -- setting the sizes of some pools of the cluster, which have the numbers of nodes that they were loaded
    -- with, gives each of them the number asked for, at least 0, and changes no other pool, and resetting
    -- pools, all of these among them, gives every pool its number back, both without an error.
    pub reset_gke_pool_sizes-set_gke_pool_sizes :
        let (failed, w₁) = set_gke_pool_sizes c nps n waits false finished w in
        let (undone, w₂) = reset_gke_pool_sizes c resets waits' false finished' w₁ in
        (failed ≡ none)
        × SetTo n (map shown nps) (size_of w) (size_of w₁)
        × (undone ≡ none)
        × ((name : String) → size_of w₂ name ≡ size_of w name)
    unfolding set_gke_pool_sizes reset_gke_pool_sizes update_gke_pool_sizes resize_gke_pools
        select_wait
    reset_gke_pool_sizes-set_gke_pool_sizes =
        simp (some_pools, some_resets, all_set, all_reset) (refl, set_sizes, refl, reset_sizes)
