-- ===== src/Pools/Eks/Start.antt =====
-- pkg/cluster/provider/eksclusterprovider.go: the cluster that the program runs in. `none` is a panic.
use cluster_turndown.Prelude.{
  String, Bool, true, false, ◌||◌, Option, none, some, List, [], ◌∷◌, str_eq, if◌then◌else◌, error,
  Result, ok, err,
}
use cluster_turndown.Pools.Aws.{AutoScalingGroup, append_if_not_exists, has_instance}
use cluster_turndown.Pools.Eks.{Nodegroup, EksClusterData, EksClient, eks_instance_info_for}

-- The groups hold the instance.
unfoldable pub hold_instance : String → List AutoScalingGroup → Bool
unfolding has_instance
hold_instance id [] = false
hold_instance id (g ∷ gs) = has_instance id g.instance_ids || hold_instance id gs

-- The zones that are given, each once.
unfoldable pub zones_of : List (Option String) → List String → List String
unfolding append_if_not_exists
zones_of [] zones = zones
zones_of (none ∷ rest) zones = zones_of rest zones
zones_of (some zone ∷ rest) zones = zones_of rest (append_if_not_exists zones zone).0

module _ {W : Type 0} (c : EksClient W) where
  unfoldable pub fronts_instance : Nodegroup → String → W → Option Bool
  unfolding hold_instance
  fronts_instance ng id w = elim (ng.resources) [
    | none ↦ none
    | some names ↦ elim (c.describe_auto_scaling_groups names w) [
      | err e ↦ some false
      | ok groups ↦ some (hold_instance id groups)
    ]
  ]

  -- The first cluster with a node group of the name that has the instance, and the role of its nodes.
  unfoldable pub find_cluster :
      String → String → List String → W → Option (Option (String × String))
  unfolding fronts_instance
  find_cluster pool id [] w = some none
  find_cluster pool id (cluster ∷ clusters) w = elim (c.describe_nodegroup cluster pool w) [
    | err e ↦ find_cluster pool id clusters w
    | ok none ↦ find_cluster pool id clusters w
    | ok (some ng) ↦ elim (fronts_instance ng id w) [
      | none ↦ none
      | some true ↦ some (some (cluster, ng.node_role))
      | some false ↦ find_cluster pool id clusters w
    ]
  ]

  -- The zones come out of a map, in no order in particular.
  unfoldable pub describe_zones : String → String → W → Result EksClusterData
  unfolding zones_of
  describe_zones cluster role w = elim (c.describe_cluster_subnets cluster w) [
    | err e ↦ err e
    | ok subnets ↦ elim (c.describe_subnet_zones subnets w) [
      | err e ↦ err e
      | ok zones ↦ ok (record {
        cluster_name = cluster;
        node_role = role;
        subnet_ids = subnets;
        availability_zones = zones_of zones [];
      })
    ]
  ]

  unfoldable pub init_cluster_data : String → W → Option (Result EksClusterData)
  unfolding find_cluster describe_zones eks_instance_info_for
  init_cluster_data node_name w =
      if str_eq node_name ""
      then some (err (error "NODE_NAME env variable was not set."))
      else (elim (c.get_node node_name w) [
        | err e ↦ some (err e)
        | ok n ↦ elim (eks_instance_info_for n) [
          | none ↦ none
          | some (pool, zone, id) ↦ elim (c.list_clusters w) [
            | err e ↦ some (err e)
            | ok clusters ↦ elim (find_cluster pool id clusters w) [
              | none ↦ none
              | some none ↦ some (err (error "Failed to locate Clusters"))
              | some (some (cluster, role)) ↦ some (describe_zones cluster role w)
            ]
          ]
        ]
      ])
