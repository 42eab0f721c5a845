-- ===== src/Pools/Aws/Launch.antt =====
-- pkg/cluster/provider/awsclusterprovider.go: launch configurations. The clients of the SDK, the clock and the
-- wait between two descriptions are parameters.
pub mod Retrieval
use Prim.Native.String.{◌++◌ as str_append}
use cluster_turndown.Prelude.{
  ℕ, zero, suc, String, Bool, true, false, Option, none, some, List, [], ◌∷◌, if◌then◌else◌, ℤ,
  Entries, lookup, insert, Error, error, Result, ok, err,
}
use cluster_turndown.Strconv.Find.{index, take_bytes}
use cluster_turndown.Turndown.Time.{Time}
use cluster_turndown.Pools.{PoolRequest}
use cluster_turndown.Pools.Aws.{LaunchConfiguration}
use cluster_turndown.Pools.Aws.ClusterData.{AwsClusterData, Base64, get_user_data}
use cluster_turndown.Pools.Aws.Kops.{KopsInstanceGroup, qualified, get_kops_instance_group_yaml}

-- A volume of a machine, that is deleted with it.
pub record BlockDeviceMapping : Type 0 where
  pub device_name : String
  pub delete_on_termination : Bool
  pub volume_size : ℤ
  pub volume_type : String

unfoldable pub get_aws_default_block_device_mappings : String → ℤ → List BlockDeviceMapping
get_aws_default_block_device_mappings disk_type disk_size_gb =
    record {
      device_name = "/dev/xvda";
      delete_on_termination = true;
      volume_size = disk_size_gb;
      volume_type = disk_type;
    }
    ∷ []

-- What a launch configuration is made with.
pub record LaunchRequest : Type 0 where
  pub associate_public_ip_address : Bool
  pub block_device_mappings : List BlockDeviceMapping
  pub iam_instance_profile : String
  pub image_id : String
  pub monitoring_enabled : Bool
  pub instance_type : String
  pub name : String
  pub security_groups : List String
  pub user_data : String
  pub key_name : String

-- What an auto scaling group is made with.
pub record GroupRequest : Type 0 where
  pub name : String
  pub health_check_grace_period : ℤ
  pub launch_configuration_name : String
  pub min_size : ℤ
  pub max_size : ℤ
  pub desired_capacity : ℤ
  pub tags : List (String × String)
  pub vpc_zone_identifier : String

-- A subnet is described by its tags. An object is put under a bucket and a key.
pub record AwsMaker (W : Type 0) : Type 0 where
  pub describe_launch_configurations : List String → W → Result (List LaunchConfiguration)
  pub describe_subnets : List String → W → Result (List (List (Option (String × String))))
  pub create_launch_configuration : LaunchRequest → W → Option Error × W
  pub create_auto_scaling_group : GroupRequest → W → Option Error × W
  pub put_object : String → String → String → W → Option Error × W
  pub sleep : W → W
  pub base64 : Base64
  pub marshal : KopsInstanceGroup → Result String

unfoldable pub ec2_tags_to_map : List (Option (String × String)) → Entries String → Entries String
ec2_tags_to_map [] m = m
ec2_tags_to_map (none ∷ tags) m = ec2_tags_to_map tags m
ec2_tags_to_map (some (k, v) ∷ tags) m = ec2_tags_to_map tags (insert k v m)

-- A name without the name of the cluster and the character before it; `none` is a panic.
unfoldable pub subnet_name : String → String → Option String
unfolding index take_bytes
subnet_name cluster name = elim (index name cluster) [
  | none ↦ some name
  | some zero ↦ none
  | some (suc i) ↦ some (take_bytes i name)
]

-- The names of the subnets that have one; `none` is a panic.
unfoldable pub subnet_names : String → List (List (Option (String × String))) → Option (List String)
unfolding subnet_name ec2_tags_to_map
subnet_names cluster [] = some []
subnet_names cluster (tags ∷ subnets) =
    let rest = subnet_names cluster subnets in
    elim (lookup "Name" (ec2_tags_to_map tags [])) [
      | none ↦ rest
      | some name ↦ elim (subnet_name cluster name) [
        | none ↦ none
        | some n ↦ elim rest [ none ↦ none | some ns ↦ some (n ∷ ns) ]
      ]
    ]

module _ {W : Type 0} (c : AwsMaker W) where
  unfoldable pub is_launch_configuration : String → W → Bool
  is_launch_configuration name w = elim (c.describe_launch_configurations (name ∷ []) w) [
    | err e ↦ false
    | ok [] ↦ false
    | ok (lc ∷ lcs) ↦ true
  ]

  -- The loop that describes a new configuration until there is one, with the descriptions that are left.
  unfoldable pub retrieve : ℕ → String → W → Option LaunchConfiguration × W
  retrieve zero name w = (none, w)
  retrieve (suc retries) name w =
      let later = retrieve retries name (c.sleep w) in
      elim (c.describe_launch_configurations (name ∷ []) w) [
        | err e ↦ later
        | ok [] ↦ later
        | ok (lc ∷ lcs) ↦ (some lc, w)
      ]

  unfoldable pub upload_instance_group : String → String → String → String → W → Option Error × W
  upload_instance_group yaml bucket cluster group =
      c.put_object bucket (str_append "/" (str_append cluster (str_append "/instancegroup/" group)))
        yaml

  unfoldable pub launch_request : PoolRequest → AwsClusterData → LaunchRequest
  unfolding get_aws_default_block_device_mappings get_user_data qualified
  launch_request r p = record {
    associate_public_ip_address = true;
    block_device_mappings = get_aws_default_block_device_mappings r.disk_type r.disk_size_gb;
    iam_instance_profile = p.iam_instance_profile;
    image_id = p.image_data.image_id;
    monitoring_enabled = false;
    instance_type = r.machine_type;
    name = qualified r.name p.cluster_name;
    security_groups = p.security_groups;
    user_data = get_user_data c.base64 r.name p;
    key_name = p.key_name;
  }

  -- `none` is a panic.
  unfoldable pub create_launch_configuration :
      Time → PoolRequest → AwsClusterData → W → Option (Result LaunchConfiguration × W)
  unfolding is_launch_configuration subnet_names get_kops_instance_group_yaml upload_instance_group
      launch_request retrieve qualified
  create_launch_configuration now r p w =
      let name = qualified r.name p.cluster_name in
      if is_launch_configuration name w
      then some (err (error "Existing Launch Configuration Name"), w)
      else (elim (c.describe_subnets p.vpc_subnets w) [
        | err e ↦ some (err e, w)
        | ok subnets ↦ elim (subnet_names p.cluster_name subnets) [
          | none ↦ none
          | some names ↦
              elim (get_kops_instance_group_yaml c.marshal now p.cluster_name r.name
                p.image_data.image_location r.machine_type r.node_count r.node_count names) [
                  | err e ↦ some (err e, w)
                  | ok yaml ↦
                      let (uploaded, w₁) =
                        upload_instance_group yaml p.cluster_bucket p.cluster_name r.name w in
                      elim uploaded [
                        | some e ↦ some (err e, w₁)
                        | none ↦
                            let (made, w₂) =
                              c.create_launch_configuration (launch_request r p) w₁ in
                            elim made [
                              | some e ↦ some (err e, w₂)
                              | none ↦
                                  let (found, w₃) = retrieve 5 name w₂ in
                                  elim found [
                                    | some lc ↦ some (ok lc, w₃)
                                    | none ↦ some (
                                      err (
                                          error (
                                            str_append
                                              "Failed to retrieve newly created launch configuration: "
                                              name)),
                                      w₃,
                                    )
                                  ]
                            ]
                      ]
                ]
        ]
      ])
