-- ===== src/Pools/Aws/Creation.antt =====
-- pkg/cluster/provider/awsclusterprovider.go: the creation of pools, with a launch configuration that is known
-- or made.
pub mod Deleted
use cluster_turndown.Prelude.{
  String, Option, none, some, List, [], ◌∷◌, str_eq, if◌then◌else◌, ℤ, pos, ltb_ℤ, Entries, Error,
  error, Result, ok, err,
}
use cluster_turndown.Turndown.Time.{Time}
use cluster_turndown.Pools.{PoolRequest}
use cluster_turndown.Pools.Resize.{put_labels}
use cluster_turndown.Pools.Waits.{NodeClient, wait_until_nodes_created}
use cluster_turndown.Pools.Aws.{LaunchConfiguration, kops_instance_group_tag}
use cluster_turndown.Pools.Aws.ClusterData.{AwsClusterData, launch_config_for}
use cluster_turndown.Pools.Aws.Kops.{qualified, get_kops_instance_group_tags}
use cluster_turndown.Pools.Aws.Launch.{GroupRequest, AwsMaker, create_launch_configuration}

unfoldable pub map_to_tags : Entries String → List (String × String)
map_to_tags [] = []
map_to_tags ((k, v) ∷ m) = (k, v) ∷ map_to_tags m

-- A request with defaults for what is empty.
unfoldable pub with_defaults : PoolRequest → PoolRequest
with_defaults r = record r {
  disk_type = if str_eq r.disk_type "" then "gp2" else r.disk_type;
  disk_size_gb = if ltb_ℤ (pos 0) r.disk_size_gb then r.disk_size_gb else pos 64;
  labels = elim (r.labels) [ none ↦ some [] | some labels ↦ some labels ];
}

-- The group of a pool with a launch configuration, in the first of the subnets; `none` is a panic.
unfoldable pub group_request :
    PoolRequest → LaunchConfiguration → AwsClusterData → Option GroupRequest
unfolding map_to_tags put_labels get_kops_instance_group_tags qualified
group_request r lc p = elim (p.vpc_subnets) [
  | [] ↦ none
  | subnet ∷ subnets ↦
      let given : Entries String = elim (r.labels) [ none ↦ [] | some labels ↦ labels ] in
      some (record {
        name = qualified r.name p.cluster_name;
        health_check_grace_period = pos 0;
        launch_configuration_name = lc.name;
        min_size = r.node_count;
        max_size = r.node_count;
        desired_capacity = r.node_count;
        tags = map_to_tags (put_labels given (get_kops_instance_group_tags p.cluster_name r.name));
        vpc_zone_identifier = subnet;
      })
]

module _ {W : Type 0} (c : AwsMaker W) where
  -- The launch configuration of a machine type that is known, or a new one; `none` is a panic.
  unfoldable pub launch_configuration_of :
      Time → PoolRequest → AwsClusterData → W → Option (Result LaunchConfiguration × W)
  unfolding launch_config_for create_launch_configuration
  launch_configuration_of now r p w = elim (launch_config_for r.machine_type p) [
    | some lc ↦ some (ok lc, w)
    | none ↦ create_launch_configuration c now r p w
  ]

  unfoldable pub create_aws_pool :
      NodeClient W → Time → PoolRequest → AwsClusterData → W → Option (Option Error × W)
  unfolding with_defaults group_request launch_configuration_of wait_until_nodes_created
  create_aws_pool k now asked p w =
      let r = with_defaults asked in
      elim (launch_configuration_of now r p w) [
        | none ↦ none
        | some (err e, w₁) ↦ some (some e, w₁)
        | some (ok lc, w₁) ↦ elim (group_request r lc p) [
          | none ↦ none
          | some g ↦
              let (failed, w₂) = c.create_auto_scaling_group g w₁ in
              elim failed [
                | some e ↦ some (some e, w₂)
                | none ↦
                    some (wait_until_nodes_created k kops_instance_group_tag r.name r.node_count w₂)
              ]
        ]
      ]

unfoldable pub create_auto_scaling_aws_pool :
    {W : Type 0} → PoolRequest → ℤ → ℤ → W → Option Error × W
create_auto_scaling_aws_pool r min max w =
    (some (error "CreateAutoScalingNodePool is not yet supported in AWS!"), w)
