-- ===== src/Examples/Storing.antt =====
-- A pool of auto scaling groups that is made and deleted, over a small store of objects.
use cluster_turndown.Prelude.{String, ◌≡◌, refl, none, some, [], ◌∷◌, pos, lookup, ok}
use cluster_turndown.Pools.{PoolRequest}
use cluster_turndown.Pools.Aws.{AwsNodePool, AwsClient}
use cluster_turndown.Pools.Aws.Calls.{delete_node_pool}
use cluster_turndown.Pools.Aws.ClusterData.{AwsClusterData, new_aws_cluster_data}
use cluster_turndown.Pools.Aws.Kops.{get_kops_instance_group_tags}
use cluster_turndown.Pools.Aws.Launch.{AwsMaker, GroupRequest, upload_instance_group}
use cluster_turndown.Pools.Aws.Creation.{group_request}
use cluster_turndown.Pools.Aws.Creation.Deleted.{
  Objects, written, IsStoring, delete_node_pool-upload_instance_group,
}
use cluster_turndown.Examples.Launching.{plain_text, configuration, workers}

-- Clients whose world is the objects.
abbrev storing_maker : AwsMaker Objects
storing_maker = record {
  describe_launch_configurations = λ names w. ok [];
  describe_subnets = λ ids w. ok [];
  create_launch_configuration = λ r w. (none, w);
  create_auto_scaling_group = λ r w. (none, w);
  put_object = λ bucket key body w. (none, written bucket key (some body) w);
  sleep = λ w. w;
  base64 = plain_text;
  marshal = λ g. ok "group";
}

abbrev storing_client : AwsClient Objects
storing_client = record {
  list_nodes = λ w. ok [];
  describe_auto_scaling_groups = λ names w. ok [];
  update_auto_scaling_group = λ r w. (none, w);
  delete_auto_scaling_group = λ name w. (none, w);
  delete_launch_configuration = λ name w. (none, w);
  delete_object = λ bucket key w. (none, written bucket key none w);
  create_or_update_tags = λ tags w. (none, w);
  delete_tags = λ tags w. (none, w);
}

storing_client-IsStoring : IsStoring storing_maker storing_client "store" (λ w. w)
storing_client-IsStoring = record {
  puts = λ key body w. (refl, λ b k. refl);
  deletes = λ key w. (refl, λ b k. refl);
  groups = λ name w b k. refl;
  configurations = λ name w b k. refl;
}

abbrev request : PoolRequest
request = record {
  name = "spare";
  machine_type = "t2.medium";
  node_count = pos 1;
  disk_type = "gp2";
  disk_size_gb = pos 64;
  labels = none;
}

abbrev cluster_data : AwsClusterData
cluster_data = record new_aws_cluster_data {
  vpc_subnets = "subnet-1" ∷ [];
  cluster_bucket = "store";
  cluster_name = "k.example";
}

abbrev spare_group : GroupRequest
spare_group = record {
  name = "spare.k.example";
  health_check_grace_period = pos 0;
  launch_configuration_name = configuration.name;
  min_size = pos 1;
  max_size = pos 1;
  desired_capacity = pos 1;
  tags = get_kops_instance_group_tags "k.example" "spare";
  vpc_zone_identifier = "subnet-1";
}

abbrev spare_pool : AwsNodePool
spare_pool = record { asg = workers; lc = some configuration; tags = spare_group.tags }

abbrev stored_objects : Objects
stored_objects =
    written "store" "/k.example/instancegroup/spare" (some "kind: InstanceGroup") (λ b k. none)

delete_node_pool-upload_instance_group_example :
    let (failed, uploaded) =
      upload_instance_group storing_maker "kind: InstanceGroup" "store" "k.example" "spare"
        (λ b k. none) in
    (key : String) × (failed ≡ none)
    × ((b k : String)
        → uploaded b k ≡ written "store" key (some "kind: InstanceGroup") (λ b k. none) b k)
    × ((u : Objects) × (delete_node_pool storing_client cluster_data spare_pool stored_objects
          ≡ (none, u))
        × ((b k : String) → u b k ≡ written "store" key none stored_objects b k))
unfolding new_aws_cluster_data group_request get_kops_instance_group_tags lookup
delete_node_pool-upload_instance_group_example =
    delete_node_pool-upload_instance_group storing_maker storing_client (λ w. w) cluster_data
      storing_client-IsStoring request configuration spare_group spare_pool "kind: InstanceGroup"
      (λ b k. none) stored_objects refl refl refl refl refl refl refl (refl, refl)
