-- ===== src/Turndown/Manager.antt =====
-- pkg/turndown/turndown.go: scaling the cluster down and up. The provider of node pools and the drain of
-- a node are parameters, whose errors of the drain are only written to the log.
pub mod Environment
pub mod Fixed
pub mod Masterless
pub mod Standard
pub mod Cycle
pub mod Construction
use cluster_turndown.Prelude.{
  String, Bool, true, false, not, ◌&&◌, ◌||◌, Option, none, some, List, [], ◌∷◌, str_eq, ◌==◌,
  if◌then◌else◌, length, keep, ℤ, pos, Entries, lookup, insert, Error, Result, ok, err,
}
use cluster_turndown.Kube.{Node, Client}
use cluster_turndown.Patcher.Loop.{for_each}
use cluster_turndown.Pools.{NodePool}
use cluster_turndown.Flattener.{
  Flattener, flatten, expand, suspend_jobs, resume_jobs, is_cluster_flattened,
}

-- A method that changes tags returns the pools, which are shared; `none` is a panic.
pub record Provider (W : Type 0) : Type 0 where
  pub get_node_pools : W → Result (List NodePool)
  pub get_pool_id : Node → String
  pub set_node_pool_sizes : List NodePool → ℤ → W → Option Error × List NodePool × W
  pub reset_node_pool_sizes : List NodePool → W → Option (Option Error × List NodePool × W)
  pub drain : String → W → W

-- `current_node` is a field of the manager that never changes; the nil slice of pools is the empty one.
pub record KubernetesTurndownManager (W : Type 0) : Type 0 where
  pub current_node : String
  pub node_pools : List NodePool
  pub auto_scaling : Option Bool
  pub world : W

unfoldable pub has_auto_scaling : List NodePool → Bool
has_auto_scaling [] = false
has_auto_scaling (np ∷ nps) = np.auto_scaling || has_auto_scaling nps

-- The map `pools`, in which a later pool replaces one of its name.
pools_by_name : List NodePool → Entries NodePool → Entries NodePool
pools_by_name [] m = m
pools_by_name (np ∷ nps) m = pools_by_name nps (insert np.name np m)

abbrev pub fixed_pools : List NodePool → List NodePool
fixed_pools = keep (λ np. not np.auto_scaling)

module _ {W : Type 0} (client : Client W Node) (provider : Provider W) (f : Flattener W) where
  unfoldable pub is_scaled_down : KubernetesTurndownManager W → Bool
  is_scaled_down m = length m.node_pools == 0

  -- A node other than the current one, in a known pool that does not scale by itself.
  is_drained : String → Entries NodePool → Node → Bool
  is_drained current pools n =
      not (str_eq n.name current) && (elim (lookup (provider.get_pool_id n) pools) [
        | none ↦ false
        | some pool ↦ not pool.auto_scaling
      ])

  unfoldable pub current_pool_id : String → List Node → String → String
  current_pool_id current [] id = id
  current_pool_id current (n ∷ ns) id =
      current_pool_id current ns (if str_eq n.name current then provider.get_pool_id n else id)

  unfoldable pub target_pools : String → List NodePool → List NodePool
  target_pools id = keep (λ np. not (str_eq np.name id || np.auto_scaling))

  -- From the third step on, in the world that the flattener left.
  unfoldable pub resize_down :
      List Node
      → List NodePool
      → KubernetesTurndownManager W
      → Option Error × KubernetesTurndownManager W
  unfolding is_drained current_pool_id target_pools pools_by_name has_auto_scaling
  resize_down nodes node_pools m =
      let pools = pools_by_name node_pools [] in
      let w =
        for_each (λ n w. if is_drained m.current_node pools n then provider.drain n.name w else w)
          nodes m.world in
      let targets = target_pools (current_pool_id m.current_node nodes "") node_pools in
      let (failed, targets', w') = provider.set_node_pool_sizes targets (pos 0) w in
      (
        failed,
        record m {
          node_pools = targets';
          auto_scaling = some (has_auto_scaling node_pools);
          world = w';
        },
      )

  unfoldable pub scale_down_cluster :
      KubernetesTurndownManager W → Option Error × KubernetesTurndownManager W
  unfolding resize_down has_auto_scaling
  scale_down_cluster m = elim (client.list m.world) [
    | err e ↦ (some e, m)
    | ok nodes ↦ elim (provider.get_node_pools m.world) [
      | err e ↦ (some e, m)
      | ok node_pools ↦
          let (failed, w) =
            if has_auto_scaling node_pools then flatten f m.world else suspend_jobs f m.world in
          elim failed [
            | some e ↦ (some e, record m { world = w })
            | none ↦ resize_down nodes node_pools (record m { world = w })
          ]
    ]
  ]

  load_node_pools : KubernetesTurndownManager W → Option Error × KubernetesTurndownManager W
  unfolding has_auto_scaling
  load_node_pools m = elim (provider.get_node_pools m.world) [
    | err e ↦ (some e, m)
    | ok pools ↦ (
      none,
      record m {
        node_pools = fixed_pools pools;
        auto_scaling = if has_auto_scaling pools then some true else m.auto_scaling;
      },
    )
  ]

  -- The pools, loaded if there are none.
  with_pools : KubernetesTurndownManager W → KubernetesTurndownManager W
  unfolding load_node_pools
  with_pools m =
      if length m.node_pools == 0
      then (let (failed, m') = load_node_pools m in
          elim failed [
            | none ↦ m'
            | some e ↦ record m' { auto_scaling = some (is_cluster_flattened f m'.world) }
          ])
      else m

  reset_sizes : KubernetesTurndownManager W → Option (Option Error × KubernetesTurndownManager W)
  reset_sizes m =
      if length m.node_pools == 0
      then some (none, m)
      else (elim (provider.reset_node_pool_sizes m.node_pools m.world) [
        | none ↦ none
        | some (failed, pools, w) ↦ some (failed, record m { node_pools = pools; world = w })
      ])

  expand_or_resume : KubernetesTurndownManager W → W → Option Error × W
  expand_or_resume m w = elim (m.auto_scaling) [
    | none ↦ resume_jobs f w
    | some b ↦ if b then expand f w else resume_jobs f w
  ]

  -- From the third step on.
  pub restart : KubernetesTurndownManager W → Option Error × KubernetesTurndownManager W
  unfolding expand_or_resume
  restart m =
      let (undone, w) = expand_or_resume m m.world in
      elim undone [
        | some e ↦ (some e, record m { world = w })
        | none ↦ (none, record m { node_pools = []; auto_scaling = none; world = w })
      ]

  pub scale_up_cluster :
      KubernetesTurndownManager W → Option (Option Error × KubernetesTurndownManager W)
  unfolding with_pools reset_sizes restart
  scale_up_cluster m = elim (reset_sizes (with_pools m)) [
    | none ↦ none
    | some (some e, m₂) ↦ some (some e, m₂)
    | some (none, m₂) ↦ some (restart m₂)
  ]
