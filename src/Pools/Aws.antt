-- ===== src/Pools/Aws.antt =====
-- pkg/cluster/provider/awsclusterprovider.go: pools that are auto scaling groups. The clients of the SDK
-- are parameters; a missing string is the empty one, as `aws.StringValue` reads it.
pub mod Kops
pub mod Launch
pub mod Creation
pub mod Discovery
pub mod ClusterData
pub mod Calls
pub mod Lawful
use cluster_turndown.Prelude.{
  ℕ, zero, suc, String, Bool, true, false, ◌||◌, Option, none, some, List, [], ◌∷◌, ◌++◌, str_eq,
  if◌then◌else◌, ℤ, Entries, lookup, insert, without, Error, Result,
}
use cluster_turndown.Strconv.{split, equal_fold}
use cluster_turndown.Kube.{Node}
use cluster_turndown.Turndown.Time.{Time}

pub record AutoScalingGroup : Type 0 where
  pub name : String
  pub instance_ids : List String
  pub min_size : ℤ
  pub max_size : ℤ
  pub desired_capacity : ℤ
  pub launch_configuration_name : String
  pub vpc_zone_identifier : String
  pub tags : List (Option (String × String))

pub record LaunchConfiguration : Type 0 where
  pub name : String
  pub instance_type : String
  pub iam_instance_profile : String
  pub image_id : Option String
  pub key_name : String
  pub user_data : String
  pub security_groups : List String
  pub created_time : Time

pub record AwsNodePool : Type 0 where
  pub asg : AutoScalingGroup
  pub lc : Option LaunchConfiguration
  pub tags : Entries String

pub record GroupTag : Type 0 where
  pub resource_id : String
  pub key : String
  pub value : String

-- What is asked of a group: its name and its three sizes.
pub record GroupUpdate : Type 0 where
  pub name : String
  pub min_size : ℤ
  pub max_size : ℤ
  pub desired_capacity : ℤ

-- A list of names restricts what is described, where it is not empty.
pub record AwsClient (W : Type 0) : Type 0 where
  pub list_nodes : W → Result (List Node)
  pub describe_auto_scaling_groups : List String → W → Result (List AutoScalingGroup)
  pub update_auto_scaling_group : GroupUpdate → W → Option Error × W
  pub delete_auto_scaling_group : String → W → Option Error × W
  pub delete_launch_configuration : String → W → Option Error × W
  pub delete_object : String → String → W → Option Error × W
  pub create_or_update_tags : List (Option GroupTag) → W → Option Error × W
  pub delete_tags : List GroupTag → W → Option Error × W

abbrev pub kops_instance_group_tag : String
kops_instance_group_tag = "kops.k8s.io/instancegroup"

abbrev pub kops_cluster_tag : String
kops_cluster_tag = "KubernetesCluster"

unfoldable pub tags_to_map : List (Option (String × String)) → Entries String → Entries String
tags_to_map [] m = m
tags_to_map (none ∷ tags) m = tags_to_map tags m
tags_to_map (some (k, v) ∷ tags) m = tags_to_map tags (insert k v m)

-- `append` behind `appendIfNotExists`, with whether it was appended.
unfoldable pub append_if_not_exists : List String → String → List String × Bool
append_if_not_exists ss ele = if is_among ss then (ss, false) else (ss ++ ele ∷ [], true)
  where
    is_among : List String → Bool
    is_among [] = false
    is_among (s ∷ rest) = str_eq s ele || is_among rest

-- `id[n:]`; `none` is a panic.
unfoldable pub drop_bytes : ℕ → String → Option String
drop_bytes zero s = some s
drop_bytes (suc n) String.[] = none
drop_bytes (suc n) (String.◌∷◌ c s) = drop_bytes n s

unfoldable pub first_two : List String → Option (String × String)
first_two (zone ∷ id ∷ rest) = some (zone, id)
first_two _ = none

-- Zone and instance of a node; `none` is a panic.
unfoldable pub instance_info_for : Node → Option (String × String)
unfolding drop_bytes first_two
instance_info_for n = elim (drop_bytes 7 n.provider_id) [
  | none ↦ none
  | some rest ↦ first_two (split rest b'/')
]

unfoldable pub has_instance : String → List String → Bool
has_instance id [] = false
has_instance id (i ∷ is) = equal_fold i id || has_instance id is

-- The name of the first group with the instance.
unfoldable pub group_of : String → List AutoScalingGroup → String
unfolding has_instance
group_of id [] = ""
group_of id (g ∷ gs) = if has_instance id g.instance_ids then g.name else group_of id gs

is_exactly_among : String → List String → Bool
is_exactly_among id [] = false
is_exactly_among id (i ∷ is) = str_eq i id || is_exactly_among id is

-- The nodes of a list with one of the instances; `none` is a panic.
unfoldable pub nodes_with : List String → List Node → Option (List Node)
unfolding is_exactly_among
nodes_with ids [] = some []
nodes_with ids (n ∷ ns) = elim (instance_info_for n) [
  | none ↦ none
  | some (zone, id) ↦ elim (nodes_with ids ns) [
    | none ↦ none
    | some rest ↦ some (if is_exactly_among id ids then n ∷ rest else rest)
  ]
]

-- The instances of the nodes, without the empty ones; `none` is a panic.
unfoldable pub instances_of : List Node → Option (List String)
instances_of [] = some []
instances_of (n ∷ ns) = elim (instance_info_for n) [
  | none ↦ none
  | some (zone, id) ↦ elim (instances_of ns) [
    | none ↦ none
    | some rest ↦ some (if str_eq id "" then rest else id ∷ rest)
  ]
]

-- The groups that have an instance of the cluster.
unfoldable pub groups_with : List String → List AutoScalingGroup → List AutoScalingGroup
unfolding is_exactly_among
groups_with ids [] = []
groups_with ids (g ∷ gs) =
    if has_any g.instance_ids then g ∷ groups_with ids gs else groups_with ids gs
  where
    has_any : List String → Bool
    has_any [] = false
    has_any (i ∷ is) = is_exactly_among i ids || has_any is

unfoldable pub pools_of : Entries LaunchConfiguration → List AutoScalingGroup → List AwsNodePool
unfolding tags_to_map
pools_of configs [] = []
pools_of configs (g ∷ gs) =
    record {
      asg = g;
      lc = lookup g.launch_configuration_name configs;
      tags = tags_to_map g.tags [];
    }
    ∷ pools_of configs gs

-- One slot for each tag; the index stays at 0, where every tag is put over the one before.
unfoldable pub tag_slots : String → Entries String → List (Option GroupTag) → List (Option GroupTag)
tag_slots name [] slots = slots
tag_slots name ((k, v) ∷ tags) slots =
    tag_slots name tags
      (put_at_zero (some (record { resource_id = name; key = k; value = v })) slots)
  where
    put_at_zero : Option GroupTag → List (Option GroupTag) → List (Option GroupTag)
    put_at_zero t [] = []
    put_at_zero t (_ ∷ rest) = t ∷ rest

unfoldable pub empty_slots : Entries String → List (Option GroupTag)
empty_slots [] = []
empty_slots (t ∷ tags) = none ∷ empty_slots tags

unfoldable pub key_tags : String → List String → List GroupTag
key_tags name [] = []
key_tags name (k ∷ ks) = record { resource_id = name; key = k; value = "" } ∷ key_tags name ks

unfoldable pub delete_keys : List String → Entries String → Entries String
delete_keys [] m = m
delete_keys (k ∷ ks) m = delete_keys ks (without k m)
