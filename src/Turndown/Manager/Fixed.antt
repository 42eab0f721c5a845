-- ===== src/Turndown/Manager/Fixed.antt =====
-- The pools that the manager keeps, and so those that it resizes.
use cluster_turndown.Prelude.{
  String, ◌≡◌, inl, inr, Bool, true, false, not, ◌||◌, List, [], ◌∷◌, arith, str_eq, if◌then◌else◌,
  Bool-cases, Option-cases, keep, All, ℤ, Result-cases,
}
use cluster_turndown.Kube.{Node, Client}
use cluster_turndown.Flattener.{Flattener, flatten, suspend_jobs}
use cluster_turndown.Pools.{NodePool}
use cluster_turndown.Turndown.Manager.{
  Provider, KubernetesTurndownManager, has_auto_scaling, resize_down, target_pools,
  scale_down_cluster,
}

All-keep :
    {A : Type 0} (P : A → Type 0) (q : A → Bool)
    → ((x : A) → q x ≡ true → P x)
    → (xs : List A) → All P (keep q xs)
All-keep P q h [] = tt
All-keep P q h (x ∷ xs) = elim (Bool-cases (q x)) [
  | inl e ↦ rw (e) (h x e, All-keep P q h xs)
  | inr e ↦ rw (e) (All-keep P q h xs)
]

-- A pool that does not scale by itself.
abbrev pub IsFixed : NodePool → Type 0
IsFixed np = np.auto_scaling ≡ false

module _ {W : Type 0} (client : Client W Node) (provider : Provider W) (f : Flattener W) where
  All-target_pools :
      (id : String) (nps : List NodePool) → All IsFixed (target_pools client provider f id nps)
  unfolding target_pools
  All-target_pools id nps =
      All-keep IsFixed (λ np. not (str_eq np.name id || np.auto_scaling))
        (λ np h. ground (arith, h)) nps

  module _
      (keeps : (nps : List NodePool) (n : ℤ) (w : W)
        → All IsFixed nps
        → All IsFixed (provider.set_node_pool_sizes nps n w).1)
      (m : KubernetesTurndownManager W) (fixed : All IsFixed m.node_pools) where
    -- The pools that are kept after scaling down, which are those that were to be resized to 0 if it
    -- came so far, do not scale by themselves, on every branch, if those that were kept before do not and
    -- resizing by the provider does not make a pool scale by itself.
    pub scale_down_cluster-IsFixed :
        All IsFixed (scale_down_cluster client provider f m).1.node_pools
    unfolding scale_down_cluster resize_down
    scale_down_cluster-IsFixed = elim (Result-cases (client.list m.world)) [
      | inr (x, e) ↦ rw (e, scale_down_cluster) fixed
      | inl (nodes, e) ↦ elim (Result-cases (provider.get_node_pools m.world)) [
        | inr (x, g) ↦ rw (e, scale_down_cluster, g) fixed
        | inl (nps, g) ↦
            let started =
              if has_auto_scaling nps then flatten f m.world else suspend_jobs f m.world in
            elim (Option-cases (started.0)) [
              | inr (x, h) ↦ rw (e, scale_down_cluster, g, h) fixed
              | inl h ↦ rw (e, scale_down_cluster, g, h) (keeps _ _ _ (All-target_pools _ nps))
            ]
      ]
    ]
