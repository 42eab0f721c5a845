-- ===== src/Examples/Resizing.antt =====
-- The theorems on pools, at a cluster of one pool of three nodes.
use cluster_turndown.Prelude.{
  ℕ, zero, suc, ◌≤◌, ◌<◌, String, ◌≡◌, refl, ◌⊎◌, true, false, Option, none, some, [], ◌∷◌, arith,
  str_eq, eq_iff, if◌then◌else◌, ℤ, pos, negsuc, Error, error, ok,
}
use cluster_turndown.Examples.Groups.{
  still_client, sizes_client, sizes_client-IsScaling, workers, three_nodes, workers-IsLoaded,
}
use cluster_turndown.Flattener.{Flattener, suspend_jobs}
use cluster_turndown.Flattener.Keeps.{AllKeep}
use cluster_turndown.Turndown.Manager.{
  Provider, KubernetesTurndownManager, is_scaled_down, resize_down, scale_down_cluster,
  target_pools, has_auto_scaling, current_pool_id, scale_up_cluster,
}
use cluster_turndown.Turndown.Manager.Cycle.{
  resizing_provider, stoppable, scale_up_cluster-scale_down_cluster,
}
use cluster_turndown.Examples.Objects.{plain_intstr}
use cluster_turndown.Tasks.Goroutines.{ended}
use cluster_turndown.Pools.Range.{flat_range, expand_range}
use cluster_turndown.Pools.Range.RoundTrip.{expand_range-flat_range}
use cluster_turndown.Pools.Gke.Calls.{GkeMetadata, set_gke_pool_sizes, reset_gke_pool_sizes}
use cluster_turndown.Pools.Gke.Back.{
  IsLoaded, shown, Resizes, reset_gke_pool_sizes-set_gke_pool_sizes,
}
use cluster_turndown.Pools.Gke.{
  GkeNodePool, GkeClient, CallError, unavailable, is_retriable_error, retry,
}
use cluster_turndown.Pools.Gke.Retry.{before_request, Repeated, is_final, plain, retry-final}
use cluster_turndown.Pools.Resize.{set_node_pool_sizes, reset_node_pool_sizes}
use cluster_turndown.Pools.Resize.Laws.{Sizes}
use cluster_turndown.Pools.Resize.Sizes.{SetTo}
use cluster_turndown.Pools.Resize.Restore.{reset_node_pool_sizes-set_node_pool_sizes}
use cluster_turndown.Pools.Aws.Calls.{aws_resizer, update_node_pool_size, create_or_update_tags}
use cluster_turndown.Pools.Aws.Lawful.{aws_resizer-IsLawful}

reset_node_pool_sizes-set_node_pool_sizes_example :
    let (failed, nps, w₁) =
      set_node_pool_sizes (aws_resizer sizes_client) (workers ∷ []) (pos 0) three_nodes in
    (failed ≡ none)
    × SetTo (pos 0) (workers ∷ []) three_nodes w₁
    × ((w₂ : Sizes) × (reset_node_pool_sizes (aws_resizer sizes_client) nps w₁
          ≡ some (none, workers ∷ [], w₂))
        × ((name : String) → w₂ name ≡ three_nodes name))
reset_node_pool_sizes-set_node_pool_sizes_example =
    reset_node_pool_sizes-set_node_pool_sizes (aws_resizer sizes_client) (λ w. w)
      (aws_resizer-IsLawful sizes_client (λ w. w) sizes_client-IsScaling) (pos 0) (workers ∷ [])
      three_nodes (workers-IsLoaded, tt)

-- A request that is turned away as often as the world says.
ask : ℕ → Option CallError × ℕ
ask zero = (none, 0)
ask (suc n) = (some (record { error = error "busy"; status = some unavailable }), n)

ask-less : (w : ℕ) → is_final (ask w).0 ≡ false → (ask w).1 < w
unfolding ask is_retriable_error
ask-less zero h = absurd (cc h)
ask-less (suc n) h = omega arith

retry-final_example :
    (k : ℕ) × (k ≤ 2)
    × Repeated ask k 2
    × (is_final (ask (before_request ask k 2)).0 ≡ true)
    × (retry ask "cancelled" 2 2
        ≡ (plain (ask (before_request ask k 2)).0, (ask (before_request ask k 2)).1))
retry-final_example = retry-final ask "cancelled" (λ w. w) ask-less 2 2 (omega arith)

-- A cluster whose nodes are none of them in the pool.
abbrev still_flattener : Flattener Sizes
still_flattener = record {
  deployments = still_client [];
  daemon_sets = still_client [];
  cron_jobs = still_client [];
  intstr = plain_intstr;
  omit_deployments = [];
}

still_flattener-AllKeep : (name : String) → AllKeep (λ (w : Sizes). w name) still_flattener
still_flattener-AllKeep name = record {
  deployments = λ ns n p w. refl;
  daemon_sets = λ ns n p w. refl;
  cron_jobs = λ ns n p w. refl;
}

abbrev sizes_manager : KubernetesTurndownManager Sizes
sizes_manager = record {
  current_node = "host";
  node_pools = [];
  auto_scaling = none;
  world = three_nodes;
}

abbrev workers_provider : Provider Sizes
workers_provider =
    resizing_provider (aws_resizer sizes_client) (λ w. ok (workers ∷ [])) (λ n. "host") (λ n w. w)

after_down : KubernetesTurndownManager Sizes
after_down = (scale_down_cluster (still_client []) workers_provider still_flattener sizes_manager).1

after_down_error : Option Error
after_down_error =
    (scale_down_cluster (still_client []) workers_provider still_flattener sizes_manager).0

workers_kept : is_scaled_down (still_client []) workers_provider still_flattener after_down ≡ false
unfolding after_down scale_down_cluster is_scaled_down resize_down set_node_pool_sizes target_pools
    current_pool_id has_auto_scaling suspend_jobs update_node_pool_size create_or_update_tags
workers_kept = refl

scale_up_cluster-scale_down_cluster_example :
    (after_down_error ≡ none)
    × SetTo
        (pos 0)
        (stoppable
          (still_client [])
          still_flattener
          (aws_resizer sizes_client)
          (λ w. ok (workers ∷ []))
          (λ n. "host")
          (λ n w. w)
          []
          (workers ∷ [])
          sizes_manager)
        three_nodes
        after_down.world
    × ((r : Option Error × KubernetesTurndownManager Sizes) × (scale_up_cluster
            (still_client [])
            workers_provider
            still_flattener
            after_down
          ≡ some r)
        × ((name : String) → r.1.world name ≡ three_nodes name)
        × (((e : Error) × (r.0 ≡ some e))
            ⊎ ((r.0 ≡ none) × (r.1.node_pools ≡ []) × (r.1.auto_scaling ≡ none))))
unfolding after_down after_down_error has_auto_scaling suspend_jobs
scale_up_cluster-scale_down_cluster_example =
    scale_up_cluster-scale_down_cluster (still_client []) still_flattener (aws_resizer sizes_client)
      (λ w. ok (workers ∷ [])) (λ n. "host") (λ n w. w) (λ w. w)
      (aws_resizer-IsLawful sizes_client (λ w. w) sizes_client-IsScaling) still_flattener-AllKeep
      (λ n name w. refl) sizes_manager [] (workers ∷ []) refl refl refl (workers-IsLoaded, tt)
      workers_kept

-- A cluster of GKE with one pool, in a world that is its number of nodes.
abbrev one_pool : ℤ → Sizes
one_pool w name = if str_eq "workers" name then some w else none

abbrev gke_client : GkeClient ℤ
gke_client = record {
  get_node_pool = λ r w. ok none;
  list_node_pools = λ r w. ok [];
  create_node_pool = λ r w. (none, w);
  set_node_pool_size = λ r n w. (none, n);
  delete_node_pool = λ r w. (none, w);
}

gke_metadata : GkeMetadata
gke_metadata = record { project_id = "p"; master_zone = "z"; cluster_id = "c" }

gke_client-Resizes : Resizes gke_client gke_metadata one_pool
gke_client-Resizes pool m n w at n_ok = (
  refl,
  λ name. ground (arith, at, eq_iff "workers" pool, eq_iff "workers" name, eq_iff pool name),
)

abbrev gke_pool : GkeNodePool
gke_pool = record {
  project = "p";
  zone = "z";
  cluster_id = "c";
  name = "workers";
  min = pos 3;
  max = pos 3;
  count = pos 3;
  auto_scaling = false;
  machine_type = "n1-standard-1";
  tags = [];
}

gke_pool-IsLoaded : IsLoaded gke_client gke_metadata one_pool gke_client-Resizes (pos 3) gke_pool
unfolding gke_metadata
gke_pool-IsLoaded = (refl, refl, (refl, refl, refl))

reset_gke_pool_sizes-set_gke_pool_sizes_example :
    let (failed, w₁) =
      set_gke_pool_sizes gke_client (gke_pool ∷ []) (pos 0) (λ np. 4) false (0 ∷ []) (pos 3) in
    let (undone, w₂) =
      reset_gke_pool_sizes gke_client (gke_pool ∷ []) (λ np. 0) false (0 ∷ []) w₁ in
    (failed ≡ none)
    × SetTo (pos 0) (shown gke_pool ∷ []) (one_pool (pos 3)) (one_pool w₁)
    × (undone ≡ none)
    × ((name : String) → one_pool w₂ name ≡ one_pool (pos 3) name)
unfolding ended
reset_gke_pool_sizes-set_gke_pool_sizes_example =
    reset_gke_pool_sizes-set_gke_pool_sizes gke_client gke_metadata one_pool gke_client-Resizes
      (pos 0) refl (gke_pool ∷ []) (gke_pool ∷ []) (λ np. 4) (λ np. 0) (0 ∷ []) (0 ∷ []) (pos 3)
      refl refl refl refl (gke_pool-IsLoaded, tt) (gke_pool-IsLoaded, tt) (λ name among. among)

expand_range-flat_range_example :
    expand_range (flat_range (pos 1) (negsuc 2147483647) (pos 1200))
    ≡ some (pos 1, negsuc 2147483647, pos 1200)
expand_range-flat_range_example =
    expand_range-flat_range (pos 1) (negsuc 2147483647) (pos 1200) (omega arith) (omega arith)
      (omega arith)
