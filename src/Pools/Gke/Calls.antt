-- ===== src/Pools/Gke/Calls.antt =====
-- pkg/cluster/provider/gkeclusterprovider.go: finding, making and resizing pools; what
-- pkg/turndown/provider/gkeprovider.go makes of them. `none` is a
-- panic.
use Prim.Native.String.{◌++◌ as str_append}
use cluster_turndown.Prelude.{
  ℕ, String, Bool, true, false, Option, none, some, List, [], ◌∷◌, map, str_eq, ◌==◌, if◌then◌else◌,
  length, ℤ, pos, ltb_ℤ, GoMap, get_text, Error, error, Result, ok, err,
}
use cluster_turndown.Strconv.{split, equal_fold}
use cluster_turndown.Kube.{Node}
use cluster_turndown.Pools.{PoolRequest}
use cluster_turndown.Pools.Resize.{turndown_pool_name, to_turndown_node_pool_labels}
use cluster_turndown.Tasks.Goroutines.{ended, select_wait}
use cluster_turndown.Pools.Waits.{NodeClient, wait_until_nodes_created}
use cluster_turndown.Pools.Aws.{drop_bytes}
use cluster_turndown.Pools.Gke.{
  GkeNodePool, PoolDescription, GkeRequest, GkeClient, retry, resize_gke_pool,
}

abbrev pub label_gke_node_pool : String
label_gke_node_pool = "cloud.google.com/gke-nodepool"

-- Project, zone and cluster of the program.
pub record GkeMetadata : Type 0 where
  pub project_id : String
  pub master_zone : String
  pub cluster_id : String

unfoldable pub cluster_resource_path : GkeMetadata → String
cluster_resource_path d = str_append "projects/" (
    str_append d.project_id
      (str_append "/locations/" (str_append d.master_zone (str_append "/clusters/" d.cluster_id))))

unfoldable pub pool_resource_by_name : GkeMetadata → String → String
unfolding cluster_resource_path
pool_resource_by_name d name = str_append (cluster_resource_path d) (str_append "/nodePools/" name)

project_and_zone : List String → String × String
project_and_zone (project ∷ zone ∷ rest) = (project, zone)
project_and_zone _ = ("", "")

-- Project, zone and pool of a node.
unfoldable pub project_info_for : Node → Option (String × String × String)
unfolding drop_bytes project_and_zone
project_info_for n = elim (drop_bytes 6 n.provider_id) [
  | none ↦ none
  | some id ↦
      let (project, zone) = project_and_zone (split id b'/') in
      some (project, zone, get_text n.labels label_gke_node_pool)
]

unfoldable pub gke_nodes_named : String → List Node → Option (List Node)
unfolding project_info_for
gke_nodes_named name [] = some []
gke_nodes_named name (n ∷ ns) = elim (project_info_for n) [
  | none ↦ none
  | some (project, zone, pool) ↦ elim (gke_nodes_named name ns) [
    | none ↦ none
    | some rest ↦ some (if equal_fold pool name then n ∷ rest else rest)
  ]
]

-- A pool that does not scale by itself has its number of nodes for its bounds.
unfoldable pub pool_described : GkeMetadata → PoolDescription → GkeNodePool
pool_described d np =
    let (min, max) : ℤ × ℤ = elim (np.auto_scaling) [
      | none ↦ (np.initial_node_count, np.initial_node_count)
      | some bounds ↦ bounds
    ] in
    record {
      project = d.project_id;
      zone = d.master_zone;
      cluster_id = d.cluster_id;
      name = np.name;
      min = min;
      max = max;
      count = np.initial_node_count;
      auto_scaling = elim (np.auto_scaling) [ none ↦ false | some bounds ↦ true ];
      machine_type = np.machine_type;
      tags = elim (np.labels) [ none ↦ [] | some labels ↦ labels ];
    }

-- The request of a pool, with defaults for what is empty.
unfoldable pub gke_request : GkeMetadata → PoolRequest → Option (ℤ × ℤ) → GkeRequest
unfolding cluster_resource_path
gke_request d r bounds = record {
  parent = cluster_resource_path d;
  name = r.name;
  machine_type = r.machine_type;
  disk_type = if str_eq r.disk_type "" then "pd-standard" else r.disk_type;
  disk_size_gb = if ltb_ℤ (pos 0) r.disk_size_gb then r.disk_size_gb else pos 100;
  labels = elim (r.labels) [ none ↦ [] | some labels ↦ labels ];
  initial_node_count = r.node_count;
  auto_scaling = bounds;
}

module _ {W : Type 0} (k : NodeClient W) where
  unfoldable pub get_gke_nodes_for : GkeNodePool → W → Option (Result (List Node))
  unfolding gke_nodes_named
  get_gke_nodes_for np w = elim (k.list_nodes w) [
    | err e ↦ some (err e)
    | ok nodes ↦ elim (gke_nodes_named np.name nodes) [ none ↦ none | some ns ↦ some (ok ns) ]
  ]

module _ {W : Type 0} (c : GkeClient W) where
  unfoldable pub is_gke_node_pool : GkeMetadata → String → W → Bool
  unfolding pool_resource_by_name
  is_gke_node_pool d name w = elim (c.get_node_pool (pool_resource_by_name d name) w) [
    | err e ↦ false
    | ok none ↦ false
    | ok (some np) ↦ true
  ]

  unfoldable pub get_gke_node_pools : GkeMetadata → W → Result (List GkeNodePool)
  unfolding cluster_resource_path pool_described
  get_gke_node_pools d w = elim (c.list_node_pools (cluster_resource_path d) w) [
    | err e ↦ err e
    | ok nps ↦ ok (map (pool_described d) nps)
  ]

  -- The request, repeated, and the wait for as many nodes as are named.
  make_gke_pool : NodeClient W → ℕ → GkeRequest → ℤ → W → Option Error × W
  unfolding retry wait_until_nodes_created
  make_gke_pool k waits r count w =
      let (failed, w') = retry (c.create_node_pool r) "NodePool Creation Cancelled" waits w in
      elim failed [
        | some e ↦ (some e, w')
        | none ↦ wait_until_nodes_created k label_gke_node_pool r.name count w'
      ]

  unfoldable pub create_gke_pool :
      GkeMetadata → NodeClient W → ℕ → PoolRequest → W → Option Error × W
  unfolding make_gke_pool gke_request
  create_gke_pool d k waits r = make_gke_pool k waits (gke_request d r none) r.node_count

  unfoldable pub create_auto_scaling_gke_pool :
      GkeMetadata → NodeClient W → ℕ → PoolRequest → ℤ → ℤ → W → Option Error × W
  unfolding make_gke_pool gke_request
  create_auto_scaling_gke_pool d k waits r min max =
      make_gke_pool k waits (gke_request d r (some (min, max))) (pos 1)

  -- The resizes of goroutines, each with the number of its waits, one after the other; their
  -- errors are dropped.
  unfoldable pub each_gke_size : (GkeNodePool → ℤ) → (GkeNodePool → ℕ) → List GkeNodePool → W → W
  unfolding resize_gke_pool
  each_gke_size size waits [] w = w
  each_gke_size size waits (np ∷ nps) w =
      each_gke_size size waits nps (resize_gke_pool c (waits np) np (size np) w).1

  -- One goroutine for each pool; `finished` says which of them end within thirty minutes, in which order, and
  -- `is_nil` whether `Wait` returned no channel.
  unfoldable pub resize_gke_pools :
      String
      → List GkeNodePool
      → (GkeNodePool → ℤ)
      → (GkeNodePool → ℕ)
      → Bool
      → List ℕ
      → W
      → Option Error × W
  unfolding each_gke_size ended select_wait
  resize_gke_pools timed_out nps size waits is_nil finished w =
      if length nps == 0
      then (none, w)
      else (let (done, left) = ended finished nps in
          (select_wait is_nil (length left == 0) timed_out, each_gke_size size waits done w))

  unfoldable pub update_gke_pool_sizes :
      List GkeNodePool → ℤ → (GkeNodePool → ℕ) → Bool → List ℕ → W → Option Error × W
  unfolding resize_gke_pools
  update_gke_pool_sizes nps size =
      resize_gke_pools "Resize Requests timed out after 30 minutes." nps (λ np. size)

  -- The turndown provider: the sizes are not kept anywhere but in the pools.
  unfoldable pub set_gke_pool_sizes :
      List GkeNodePool → ℤ → (GkeNodePool → ℕ) → Bool → List ℕ → W → Option Error × W
  unfolding update_gke_pool_sizes
  set_gke_pool_sizes nps size waits is_nil finished w =
      if length nps == 0 then (none, w) else update_gke_pool_sizes nps size waits is_nil finished w

  unfoldable pub reset_gke_pool_sizes :
      List GkeNodePool → (GkeNodePool → ℕ) → Bool → List ℕ → W → Option Error × W
  unfolding resize_gke_pools
  reset_gke_pool_sizes nps =
      resize_gke_pools "Resizing node requests timed out after 30 minutes." nps (λ np. np.count)

  unfoldable pub is_gke_turndown_pool : GkeMetadata → W → Bool
  unfolding is_gke_node_pool
  is_gke_turndown_pool d = is_gke_node_pool d turndown_pool_name

  unfoldable pub create_gke_singleton :
      GkeMetadata → NodeClient W → ℕ → GoMap String → W → Option Error × W
  unfolding create_gke_pool to_turndown_node_pool_labels
  create_gke_singleton d k waits labels = create_gke_pool d k waits (record {
    name = turndown_pool_name;
    machine_type = "g1-small";
    node_count = pos 1;
    disk_type = "pd-standard";
    disk_size_gb = pos 10;
    labels = to_turndown_node_pool_labels labels;
  })

-- A pool of GKE takes no tags.
unfoldable pub gke_tags_refused : {W : Type 0} → GkeNodePool → W → Option Error × W
gke_tags_refused np w =
    (some (error "GKE does not support modifying labels after a node pool has been created."), w)
