-- ===== src/Pools/Aws/Calls.antt =====
-- pkg/cluster/provider/awsclusterprovider.go: the methods of the provider.
use Prim.Native.String.{◌++◌ as str_append}
use cluster_turndown.Prelude.{
  String, Bool, true, false, Option, none, some, List, [], ◌∷◌, str_eq, if◌then◌else◌, ℤ, Entries,
  lookup, Error, error, Result, ok, err,
}
use cluster_turndown.Kube.{Node}
use cluster_turndown.Pools.{NodePool, PoolResizer}
use cluster_turndown.Pools.Resize.{put_labels}
use cluster_turndown.Pools.Aws.{
  AwsNodePool, AwsClient, kops_instance_group_tag, kops_cluster_tag, instance_info_for, group_of,
  nodes_with, tag_slots, empty_slots, key_tags, delete_keys,
}
use cluster_turndown.Pools.Aws.ClusterData.{AwsClusterData}

module _ {W : Type 0} (c : AwsClient W) where
  unfoldable pub is_node_pool : String → W → Bool
  is_node_pool name w = elim (c.describe_auto_scaling_groups (name ∷ []) w) [
    | err e ↦ false
    | ok [] ↦ false
    | ok (g ∷ gs) ↦ true
  ]

  -- `none` is a panic.
  unfoldable pub get_node_pool_name : Node → W → Option String
  unfolding group_of instance_info_for
  get_node_pool_name n w = elim (instance_info_for n) [
    | none ↦ none
    | some (zone, id) ↦ elim (c.describe_auto_scaling_groups [] w) [
      | err e ↦ some ""
      | ok groups ↦ some (group_of id groups)
    ]
  ]

  unfoldable pub get_nodes_for : AwsNodePool → W → Option (Result (List Node))
  unfolding nodes_with
  get_nodes_for np w = elim (c.list_nodes w) [
    | err e ↦ some (err e)
    | ok nodes ↦ elim (nodes_with np.asg.instance_ids nodes) [
      | none ↦ none
      | some ns ↦ some (ok ns)
    ]
  ]

  unfoldable pub update_node_pool_size : NodePool → ℤ → W → Option Error × W
  update_node_pool_size np size =
      c.update_auto_scaling_group
        (record { name = np.name; min_size = size; max_size = size; desired_capacity = size })

  -- The loop stops at the first pool for which there is no error.
  unfoldable pub update_node_pool_sizes : List NodePool → ℤ → W → Option Error × W
  unfolding update_node_pool_size
  update_node_pool_sizes [] size w = (none, w)
  update_node_pool_sizes (np ∷ nps) size w =
      let (failed, w') = update_node_pool_size np size w in
      elim failed [ none ↦ (none, w') | some e ↦ update_node_pool_sizes nps size w' ]

  -- The tags come in the order in which the loop over the map meets them.
  unfoldable pub create_or_update_tags : NodePool → Entries String → W → Option Error × NodePool × W
  unfolding tag_slots empty_slots put_labels
  create_or_update_tags np tags w =
      let (failed, w') = c.create_or_update_tags (tag_slots np.name tags (empty_slots tags)) w in
      elim failed [
        | some e ↦ (some e, np, w')
        | none ↦ (none, record np { tags = put_labels tags np.tags }, w')
      ]

  unfoldable pub delete_tags : NodePool → List String → W → Option Error × NodePool × W
  unfolding key_tags delete_keys
  delete_tags np keys w =
      let (failed, w') = c.delete_tags (key_tags np.name keys) w in
      elim failed [
        | some e ↦ (some e, np, w')
        | none ↦ (none, record np { tags = delete_keys keys np.tags }, w')
      ]

  delete_instance_group : String → String → String → W → Option Error × W
  delete_instance_group bucket cluster group =
      c.delete_object bucket
        (str_append "/" (str_append cluster (str_append "/instancegroup/" group)))

  abbrev pub aws_resizer : PoolResizer W
  aws_resizer = record {
    update_node_pool_size = update_node_pool_size;
    create_or_update_tags = create_or_update_tags;
    delete_tags = delete_tags;
  }

  -- A deletion is made of three, of which an error ends the rest.
  unfoldable pub delete_node_pool : AwsClusterData → AwsNodePool → W → Option Error × W
  unfolding delete_instance_group
  delete_node_pool known np w = elim (lookup kops_instance_group_tag np.tags) [
    | none ↦ (some (error "Failed to locate the instance group from AutoScalingGroup tags"), w)
    | some group ↦
        let cluster : String = elim (lookup kops_cluster_tag np.tags) [
          | none ↦ known.cluster_name
          | some n ↦ n
        ] in
        if str_eq cluster ""
        then (some (error "Failed to locate the cluster name from AutoScalingGroup tags"), w)
        else if str_eq known.cluster_bucket ""
        then (some (error "Failed to locate the cluster bucket from user data."), w)
        else (elim (np.lc) [
          | none ↦ (some (error "NodePool has no reference to a launch configuration."), w)
          | some lc ↦
              let (kept, w₁) = c.delete_auto_scaling_group np.asg.name w in
              elim kept [
                | some e ↦ (some e, w₁)
                | none ↦
                    let (configured, w₂) = c.delete_launch_configuration lc.name w₁ in
                    elim configured [
                      | some e ↦ (some e, w₂)
                      | none ↦ delete_instance_group known.cluster_bucket cluster group w₂
                    ]
              ]
        ])
  ]
