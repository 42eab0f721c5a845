-- ===== src/Examples/Launching.antt =====
-- The theorems on launch configurations, user data and node groups, at small inputs.
use Prim.Native.String.{◌++◌ as str_append}
use cluster_turndown.Prelude.{
  String, ◌≡◌, refl, Option, none, some, List, [], ◌∷◌, arith, pos, lookup, insert, Result, ok,
}
use cluster_turndown.Kube.{Node}
use cluster_turndown.Pools.Resize.Laws.{Sizes, resized}
use cluster_turndown.Strconv.{put_first, split}
use cluster_turndown.Pools.Gke.Metadata.{trim_space, split_colon}
use cluster_turndown.Pools.Aws.{
  AutoScalingGroup, LaunchConfiguration, AwsNodePool, AwsClient, instance_info_for,
}
use cluster_turndown.Pools.Aws.ClusterData.{
  AwsClusterData, Base64, new_aws_cluster_data, launch_config_for, join, instance_group_line,
  group_name_line, update_user_data, get_user_data, line_kind, config_base,
}
use cluster_turndown.Pools.Aws.ClusterData.Template.{Script, IsScript, lines_with, is_line}
use cluster_turndown.Pools.Aws.ClusterData.Filled.{IsEncoding, get_user_data-update_user_data}
use cluster_turndown.Pools.Aws.Discovery.{AwsImages, get_aws_node_pools}
use cluster_turndown.Pools.Aws.Discovery.Known.{launch_config_for-get_aws_node_pools}
use cluster_turndown.Pools.Eks.{EksNodePool, entries_of}
use cluster_turndown.Pools.Eks.Tags.{with_maps}
use cluster_turndown.Pools.Eks.Provider.{set_eks_pool_sizes, reset_eks_pool_sizes}
use cluster_turndown.Pools.Eks.Provider.Back.{
  IsLoaded, IsTagging, reset_eks_pool_sizes-set_eks_pool_sizes,
}
use cluster_turndown.Examples.Groups.{sizes_client, three_nodes}
use cluster_turndown.Examples.Hosting.{spare}
use cluster_turndown.Examples.Serving.{eks_client, eks_client-IsFronting, node_group, group}

-- An encoding that leaves a text as it is.
abbrev pub plain_text : Base64
plain_text = record { encode = λ s. s; decode = λ s. some s }

plain_text-IsEncoding : IsEncoding plain_text
plain_text-IsEncoding = record { decode-encode = λ s. refl; nonempty = λ s e. e }

-- A short script for the group `nodes`.
abbrev script : Script
script = record {
  before = "#!/bin/bash\n" ∷ [];
  group = "  kops.k8s.io/instancegroup: nodes\n";
  middle = "role: Node\n" ∷ [];
  config = "ConfigBase: s3://store/k.example\n";
  rest = [];
  named = "InstanceGroupName: nodes\n";
  after = "exit\n" ∷ [];
}

script-IsScript : IsScript script "store" "k.example"
unfolding is_line line_kind config_base split_colon trim_space put_first split
script-IsScript = record {
  before = ((refl, refl), tt);
  middle = ((refl, refl), tt);
  rest = tt;
  after = ((refl, refl), tt);
  group = (refl, refl);
  named = (refl, refl);
  config = (refl, refl);
  value = refl;
}

get_user_data-update_user_data_example :
    (p' : AwsClusterData) × (update_user_data plain_text
        (join (lines_with script.group script.named script))
        new_aws_cluster_data
      ≡ some p')
    × (get_user_data plain_text "spare" p'
        ≡ join (lines_with (instance_group_line "spare") (group_name_line "spare") script))
    × (p'.cluster_bucket ≡ "store")
    × (p'.cluster_name ≡ "k.example")
get_user_data-update_user_data_example =
    get_user_data-update_user_data plain_text plain_text-IsEncoding script "store" "k.example"
      script-IsScript new_aws_cluster_data "spare"

-- A configuration of a worker.
abbrev pub configuration : LaunchConfiguration
configuration = record {
  name = "nodes.k.example";
  instance_type = "t2.medium";
  iam_instance_profile = "profile";
  image_id = some "ami-1";
  key_name = "key";
  user_data = join (lines_with script.group script.named script);
  security_groups = "sg-1" ∷ [];
  created_time = pos 1;
}

abbrev worker : Node
worker = record spare { provider_id = "aws:///us-east-2a/i-1" }

abbrev pub workers : AutoScalingGroup
workers = record group { instance_ids = "i-1" ∷ []; launch_configuration_name = "nodes.k.example" }

-- A cluster of one node in one group.
abbrev one_group : AwsClient Sizes
one_group = record sizes_client {
  list_nodes = λ w. ok (worker ∷ []);
  describe_auto_scaling_groups = λ names w. ok (workers ∷ []);
}

abbrev images : AwsImages Sizes
images = record {
  base64 = plain_text;
  describe_launch_configurations = λ names w. ok (configuration ∷ []);
  describe_images = λ id w. ok ("kope.io/k8s-1.11" ∷ []);
}

-- What is found, and what is then known.
abbrev found : Option (Result (List AwsNodePool) × AwsClusterData)
found = get_aws_node_pools one_group images new_aws_cluster_data three_nodes

abbrev known : AwsClusterData
known = elim found [ none ↦ new_aws_cluster_data | some (nps, p) ↦ p ]

abbrev pools : List AwsNodePool
pools = record { asg = workers; lc = some configuration; tags = [] } ∷ []

launch_config_for-get_aws_node_pools_example : launch_config_for "t2.medium" known ≡ none
unfolding get_aws_node_pools instance_info_for split lookup insert
launch_config_for-get_aws_node_pools_example =
    launch_config_for-get_aws_node_pools one_group images new_aws_cluster_data known pools
      three_nodes "t2.medium" refl

eks_client-IsTagging : IsTagging eks_client (λ w. w) (λ name. str_append "arn:" name)
eks_client-IsTagging = record {
  tags = λ name value m w at. (refl, λ asked. refl);
  untags = λ name m w at. (refl, λ asked. refl);
}

node_group-IsLoaded :
    IsLoaded three_nodes "c" (λ name. name) (λ name. str_append "arn:" name) node_group group 3
unfolding lookup entries_of
node_group-IsLoaded = record {
  behind = refl;
  fronted = refl;
  inside = refl;
  known_by = refl;
  min = omega arith;
  max = omega arith;
  count = omega arith;
  counted = refl;
  at = refl;
  unlabelled = refl;
  fresh = refl;
  untagged = refl;
}

reset_eks_pool_sizes-set_eks_pool_sizes_example :
    (np₁ : EksNodePool) × (w₁ : Sizes) × (w₂ : Sizes) × (set_eks_pool_sizes eks_client
        (node_group ∷ [])
        (pos 0)
        three_nodes
      ≡ some (none, np₁ ∷ [], w₁))
    × ((asked : String) → w₁ asked ≡ resized "workers" (pos 0) three_nodes asked)
    × (reset_eks_pool_sizes eks_client (np₁ ∷ []) w₁ ≡ some (none, with_maps node_group ∷ [], w₂))
    × ((asked : String) → w₂ asked ≡ three_nodes asked)
reset_eks_pool_sizes-set_eks_pool_sizes_example =
    reset_eks_pool_sizes-set_eks_pool_sizes eks_client "c" (λ w. w) (λ name. name)
      (λ name. str_append "arn:" name) eks_client-IsFronting eks_client-IsTagging node_group group 3
      three_nodes node_group-IsLoaded
