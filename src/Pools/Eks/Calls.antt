-- ===== src/Pools/Eks/Calls.antt =====
-- pkg/cluster/provider/eksclusterprovider.go: finding, making, resizing and deleting node groups.
pub mod Sizes
pub mod Together
use cluster_turndown.Prelude.{
  ℕ, String, Bool, true, false, Option, none, some, List, [], ◌∷◌, ◌==◌, if◌then◌else◌, length, ℤ,
  Error, Result, ok, err,
}
use cluster_turndown.Kube.{Node}
use cluster_turndown.Tasks.Goroutines.{ended, select_wait}
use cluster_turndown.Pools.{PoolRequest}
use cluster_turndown.Pools.Eks.{
  Nodegroup, EksNodePool, EksClusterData, NodegroupRequest, EksClient, entries_of,
  merge_labels_and_tags, eks_instance_info_for, nodes_named, is_zero, default_disk_size, scaling,
}

abbrev first_of : {A : Type 0} → List A → Option A
first_of [] = none
first_of (x ∷ xs) = some x

-- The name of the first group behind a node group, if there is one.
unfoldable pub asg_names : Nodegroup → List String
asg_names ng = elim (ng.resources) [ none ↦ [] | some [] ↦ [] | some (a ∷ as') ↦ a ∷ [] ]

module _ {W : Type 0} (c : EksClient W) (known : EksClusterData) where
  unfoldable pub is_eks_node_pool : String → W → Bool
  is_eks_node_pool name w = elim (c.describe_nodegroup known.cluster_name name w) [
    | err e ↦ false
    | ok none ↦ false
    | ok (some ng) ↦ true
  ]

  -- `none` is a panic, here and below.
  unfoldable pub get_eks_node_pool_name : Node → Option String
  unfolding eks_instance_info_for
  get_eks_node_pool_name n = elim (eks_instance_info_for n) [
    | none ↦ none
    | some info ↦ some info.0
  ]

  unfoldable pub get_eks_nodes_for : EksNodePool → W → Option (Result (List Node))
  unfolding nodes_named
  get_eks_nodes_for np w = elim (c.list_nodes w) [
    | err e ↦ some (err e)
    | ok nodes ↦ elim (nodes_named np.ng.name nodes) [ none ↦ none | some ns ↦ some (ok ns) ]
  ]

  -- The pool of one name; a name that is described by no node group is a nil pointer that is read.
  unfoldable pub load_pool : String → W → Option (Result EksNodePool)
  unfolding asg_names merge_labels_and_tags
  load_pool name w = elim (c.describe_nodegroup known.cluster_name name w) [
    | err e ↦ some (err e)
    | ok described ↦
        let names : List String = elim described [ none ↦ [] | some ng ↦ asg_names ng ] in
        elim (c.describe_auto_scaling_groups names w) [
          | err e ↦ some (err e)
          | ok groups ↦ elim described [
            | none ↦ none
            | some ng ↦
                some
                  (ok (record { ng = ng; asg = first_of groups; tags = merge_labels_and_tags ng }))
          ]
        ]
  ]

  unfoldable pub load_pools : List String → W → Option (Result (List EksNodePool))
  unfolding load_pool
  load_pools [] w = some (ok [])
  load_pools (name ∷ names) w = elim (load_pool name w) [
    | none ↦ none
    | some (err e) ↦ some (err e)
    | some (ok np) ↦ elim (load_pools names w) [
      | none ↦ none
      | some (err e) ↦ some (err e)
      | some (ok nps) ↦ some (ok (np ∷ nps))
    ]
  ]

  -- The pools, and the cache of them, which is written where they are loaded.
  unfoldable pub get_eks_node_pools :
      List EksNodePool → W → Option (Result (List EksNodePool) × List EksNodePool)
  unfolding load_pools
  get_eks_node_pools cached w = elim (c.list_nodegroups known.cluster_name w) [
    | err e ↦ some (err e, cached)
    | ok names ↦ elim (load_pools names w) [
      | none ↦ none
      | some (err e) ↦ some (err e, cached)
      | some (ok nps) ↦ some (ok nps, nps)
    ]
  ]

  -- Made, and waited for.
  make_nodegroup : NodegroupRequest → W → Option Error × W
  make_nodegroup r w =
      let (failed, w') = c.create_nodegroup r w in
      elim failed [
        | some e ↦ (some e, w')
        | none ↦ c.wait_until_nodegroup_active known.cluster_name r.name w'
      ]

  -- The labels of a nil map are an empty one.
  requested : PoolRequest → ℤ → ℤ → NodegroupRequest
  unfolding default_disk_size entries_of
  requested r min max = record {
    cluster_name = known.cluster_name;
    node_role = known.node_role;
    name = r.name;
    instance_types = r.machine_type ∷ [];
    subnets = known.subnet_ids;
    disk_size = default_disk_size r.disk_size_gb;
    labels = some (entries_of r.labels);
    desired_size = r.node_count;
    min_size = min;
    max_size = max;
  }

  unfoldable pub create_eks_node_pool : PoolRequest → W → Option Error × W
  unfolding make_nodegroup requested
  create_eks_node_pool r = make_nodegroup (requested r r.node_count r.node_count)

  unfoldable pub create_auto_scaling_node_pool : PoolRequest → ℤ → ℤ → W → Option Error × W
  unfolding make_nodegroup requested
  create_auto_scaling_node_pool r min max = make_nodegroup (requested r min max)

module _ {W : Type 0} (c : EksClient W) where
  -- To 0 by the auto scaling group, which is read behind its pointer; to any other size by the node group.
  unfoldable pub update_eks_node_pool_size : EksNodePool → ℤ → W → Option (Option Error × W)
  unfolding is_zero
  update_eks_node_pool_size np size w =
      if is_zero size
      then (elim (np.asg) [
        | none ↦ none
        | some g ↦ some (
            c.update_auto_scaling_group
              (record { name = g.name; min_size = size; max_size = size; desired_capacity = size })
              w)
      ])
      else some (c.update_nodegroup_config (scaling np.ng.cluster_name np.ng.name size) w)

  -- The calls of the goroutines, in the order in which they are made; their errors are dropped.
  unfoldable pub each_size : List EksNodePool → ℤ → W → Option W
  unfolding update_eks_node_pool_size
  each_size [] size w = some w
  each_size (np ∷ nps) size w = elim (update_eks_node_pool_size np size w) [
    | none ↦ none
    | some (failed, w') ↦ each_size nps size w'
  ]

  -- One goroutine for each pool; `finished` says which of them end within thirty minutes, in which order, and
  -- `is_nil` whether `Wait` returned no channel.
  unfoldable pub update_eks_node_pool_sizes :
      List EksNodePool → Bool → List ℕ → ℤ → W → Option (Option Error × W)
  unfolding each_size ended select_wait
  update_eks_node_pool_sizes nps is_nil finished size w =
      if length nps == 0
      then some (none, w)
      else (let (done, left) = ended finished nps in
          elim (each_size done size w) [
            | none ↦ none
            | some w' ↦ some (
              select_wait is_nil (length left == 0) "Resize Requests timed out after 30 minutes.",
              w',
            )
          ])

  unfoldable pub delete_eks_node_pool : EksNodePool → W → Option Error × W
  delete_eks_node_pool np w =
      let (failed, w') = c.delete_nodegroup np.ng.cluster_name np.ng.name w in
      elim failed [
        | some e ↦ (some e, w')
        | none ↦ c.wait_until_nodegroup_deleted np.ng.cluster_name np.ng.name w'
      ]
