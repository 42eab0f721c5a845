-- ===== src/Pools/Eks.antt =====
-- pkg/cluster/provider/eksclusterprovider.go: pools that are node groups of EKS, each in front of an auto
-- scaling group. The clients of the SDK are parameters; a missing string is the empty one.
pub mod Calls
pub mod Tags
pub mod Start
pub mod Provider
use cluster_turndown.Prelude.{
  zero, suc, String, Bool, true, false, Option, none, some, List, [], ◌∷◌, if◌then◌else◌, ℤ, pos,
  negsuc, Entries, GoMap, get_text, Error, Result,
}
use cluster_turndown.Strconv.{equal_fold}
use cluster_turndown.Kube.{Node}
use cluster_turndown.Pools.Resize.{put_labels}
use cluster_turndown.Pools.Aws.{AutoScalingGroup, GroupUpdate, instance_info_for}

abbrev pub label_eks_node_pool : String
label_eks_node_pool = "eks.amazonaws.com/nodegroup"

-- `resources` are the names of the auto scaling groups; they are behind a pointer.
pub record Nodegroup : Type 0 where
  pub cluster_name : String
  pub name : String
  pub arn : String
  pub node_role : String
  pub labels : GoMap String
  pub tags : GoMap String
  pub resources : Option (List String)

pub record EksNodePool : Type 0 where
  pub ng : Nodegroup
  pub asg : Option AutoScalingGroup
  pub tags : Entries String

pub record EksClusterData : Type 0 where
  pub cluster_name : String
  pub node_role : String
  pub subnet_ids : List String
  pub availability_zones : List String

-- What a node group is made with.
pub record NodegroupRequest : Type 0 where
  pub cluster_name : String
  pub node_role : String
  pub name : String
  pub instance_types : List String
  pub subnets : List String
  pub disk_size : ℤ
  pub labels : GoMap String
  pub desired_size : ℤ
  pub min_size : ℤ
  pub max_size : ℤ

-- What is changed of a node group: its sizes or its labels. An empty name is one that was not given.
pub data ConfigUpdate : Type 0 where
  scaling : (cluster name : String) (size : ℤ) → ConfigUpdate
  put_node_labels : (cluster : String) (labels : Entries String) → ConfigUpdate
  remove_node_labels : (cluster : String) (keys : List String) → ConfigUpdate

pub record EksClient (W : Type 0) : Type 0 where
  pub list_nodes : W → Result (List Node)
  pub get_node : String → W → Result Node
  pub list_clusters : W → Result (List String)
  pub describe_cluster_subnets : String → W → Result (List String)
  pub describe_subnet_zones : List String → W → Result (List (Option String))
  pub list_nodegroups : String → W → Result (List String)
  pub describe_nodegroup : String → String → W → Result (Option Nodegroup)
  pub describe_auto_scaling_groups : List String → W → Result (List AutoScalingGroup)
  pub create_nodegroup : NodegroupRequest → W → Option Error × W
  pub wait_until_nodegroup_active : String → String → W → Option Error × W
  pub delete_nodegroup : String → String → W → Option Error × W
  pub wait_until_nodegroup_deleted : String → String → W → Option Error × W
  pub update_auto_scaling_group : GroupUpdate → W → Option Error × W
  pub update_nodegroup_config : ConfigUpdate → W → Option Error × W
  pub tag_resource : String → Entries String → W → Option Error × W
  pub untag_resource : String → List String → W → Option Error × W

unfoldable pub entries_of : GoMap String → Entries String
entries_of none = []
entries_of (some m) = m

-- The labels, and over them the tags.
unfoldable pub merge_labels_and_tags : Nodegroup → Entries String
unfolding entries_of put_labels
merge_labels_and_tags ng = put_labels (entries_of ng.tags) (put_labels (entries_of ng.labels) [])

-- Node pool, zone and instance; `none` is a panic.
unfoldable pub eks_instance_info_for : Node → Option (String × String × String)
unfolding instance_info_for
eks_instance_info_for n = elim (instance_info_for n) [
  | none ↦ none
  | some (zone, id) ↦ some (get_text n.labels label_eks_node_pool, zone, id)
]

-- The nodes whose label names the pool.
unfoldable pub nodes_named : String → List Node → Option (List Node)
unfolding eks_instance_info_for
nodes_named name [] = some []
nodes_named name (n ∷ ns) = elim (eks_instance_info_for n) [
  | none ↦ none
  | some (pool, zone, id) ↦ elim (nodes_named name ns) [
    | none ↦ none
    | some rest ↦ some (if equal_fold pool name then n ∷ rest else rest)
  ]
]

unfoldable pub is_zero : ℤ → Bool
is_zero (pos zero) = true
is_zero (pos (suc n)) = false
is_zero (negsuc n) = false

unfoldable pub default_disk_size : ℤ → ℤ
unfolding is_zero
default_disk_size size = if is_zero size then pos 20 else size
