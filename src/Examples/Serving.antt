-- ===== src/Examples/Serving.antt =====
-- The theorems on node groups, on the HTTP handlers and on the master node, at small inputs.
use cluster_turndown.Prelude.{
  String, ◌≡◌, refl, ◌⊎◌, true, false, Option, none, some, List, [], ◌∷◌, arith, str_eq, eq_iff,
  if◌then◌else◌, keep, All, pos, lookup, Error, error, ok, err, ◌>>=◌,
}
use cluster_turndown.Kube.{Node, node_names}
use cluster_turndown.Patcher.Labels.{labelled}
use cluster_turndown.Pools.Aws.{AutoScalingGroup}
use cluster_turndown.Pools.Resize.{turndown_node_label}
use cluster_turndown.Pools.Resize.Laws.{Sizes, resized}
use cluster_turndown.Pools.Eks.{
  EksNodePool, EksClient, ConfigUpdate, entries_of, scaling, put_node_labels, remove_node_labels,
}
use cluster_turndown.Pools.Eks.Calls.{update_eks_node_pool_size, update_eks_node_pool_sizes}
use cluster_turndown.Pools.Eks.Calls.Together.{by_name, update_eks_node_pool_sizes-SetTo}
use cluster_turndown.Pools.Resize.Sizes.{SetTo}
use cluster_turndown.Tasks.Goroutines.{ended}
use cluster_turndown.Pools.Eks.Calls.Sizes.{IsFronting, update_eks_node_pool_size-resized}
use cluster_turndown.Pools.Eks.Tags.{with_maps, create_or_update_eks_tags, delete_eks_tags}
use cluster_turndown.Pools.Eks.Tags.Restore.{delete_tags-create_or_update_tags}
use cluster_turndown.Turndown.Schedule.{Schedule}
use cluster_turndown.Turndown.Store.{TurndownSchedule}
use cluster_turndown.Examples.Planner.{from_time, to_time}
use cluster_turndown.Examples.Groups.{still_client, three_nodes}
use cluster_turndown.Examples.Objects.{list_client, list_client-Serves}
use cluster_turndown.Examples.Scheduling.{resource}
use cluster_turndown.Turndown.Endpoints.{
  HttpRequest, ScheduleTurndownRequest, TurndownEndpoints, new_schedule, handle_start_schedule,
  start_schedule, answer_schedule, handle_cancel_schedule, internal_server_error, empty,
}
use cluster_turndown.Turndown.Endpoints.Answers.{
  Waits, IsOther, FirstSuccess, handle_start_schedule-bytes, handle_cancel_schedule-first,
}
use cluster_turndown.Turndown.Manager.Standard.{
  master_node_label_key, StandardCluster, label_master, reverse_host_node,
}
use cluster_turndown.Turndown.Manager.Standard.Labels.{
  has_key, IsServed, reverse_host_node-label_master,
}
use cluster_turndown.Examples.Hosting.{once, spare}

-- A node group can be given any size.
abbrev configure : ConfigUpdate → Sizes → Option Error × Sizes
configure (scaling cluster name size) w =
    (if str_eq cluster "c" then (none, resized name size w) else (some (error "no cluster"), w))
configure (put_node_labels cluster labels) w = (none, w)
configure (remove_node_labels cluster keys) w = (none, w)

-- A client whose world is the sizes of the node groups, each in front of a group of its name.
abbrev pub eks_client : EksClient Sizes
eks_client = record {
  list_nodes = λ w. ok [];
  get_node = λ name w. ok spare;
  list_clusters = λ w. ok [];
  describe_cluster_subnets = λ name w. ok [];
  describe_subnet_zones = λ ids w. ok [];
  list_nodegroups = λ cluster w. ok [];
  describe_nodegroup = λ cluster name w. ok none;
  describe_auto_scaling_groups = λ names w. ok [];
  create_nodegroup = λ r w. (none, w);
  wait_until_nodegroup_active = λ cluster name w. (none, w);
  delete_nodegroup = λ cluster name w. (none, w);
  wait_until_nodegroup_deleted = λ cluster name w. (none, w);
  update_auto_scaling_group = λ r w. (none, resized r.name r.desired_capacity w);
  update_nodegroup_config = configure;
  tag_resource = λ arn tags w. (none, w);
  untag_resource = λ arn keys w. (none, w);
}

pub eks_client-IsFronting : IsFronting eks_client "c" (λ w. w) (λ name. name)
eks_client-IsFronting = record {
  scales = λ name m n w at. (refl, λ asked. refl);
  configures = λ name m n w at. (refl, λ asked. refl);
}

abbrev pub group : AutoScalingGroup
group = record {
  name = "workers";
  instance_ids = [];
  min_size = pos 1;
  max_size = pos 5;
  desired_capacity = pos 3;
  launch_configuration_name = "";
  vpc_zone_identifier = "";
  tags = [];
}

abbrev pub node_group : EksNodePool
node_group = record {
  ng = record {
    cluster_name = "c";
    name = "workers";
    arn = "arn:workers";
    node_role = "role";
    labels = none;
    tags = some (("team", "core") ∷ []);
    resources = some ("workers" ∷ []);
  };
  asg = some group;
  tags = ("team", "core") ∷ [];
}

update_eks_node_pool_size-resized_example :
    (w : Sizes) × (update_eks_node_pool_size eks_client node_group (pos 2) three_nodes
      ≡ some (none, w))
    × ((asked : String) → w asked ≡ resized "workers" (pos 2) three_nodes asked)
update_eks_node_pool_size-resized_example =
    update_eks_node_pool_size-resized eks_client "c" (λ w. w) (λ name. name) eks_client-IsFronting
      node_group group (pos 3) 2 three_nodes refl refl refl refl

-- A second node group, and the sizes of both.
abbrev spare_pool : EksNodePool
spare_pool = record {
  ng = record node_group.ng { name = "spare"; arn = "arn:spare"; resources = some ("spare" ∷ []) };
  asg = some (record group { name = "spare"; desired_capacity = pos 1 });
  tags = [];
}

abbrev two_groups : Sizes
two_groups name =
    if str_eq "workers" name
    then some (pos 3)
    else if str_eq "spare" name
    then some (pos 1)
    else none

update_eks_node_pool_sizes-SetTo_example :
    (w : Sizes) × (update_eks_node_pool_sizes eks_client
        (node_group ∷ spare_pool ∷ [])
        false
        (1 ∷ 0 ∷ [])
        (pos 0)
        two_groups
      ≡ some (none, w))
    × SetTo (pos 0) (by_name node_group ∷ by_name spare_pool ∷ []) two_groups w
unfolding ended
update_eks_node_pool_sizes-SetTo_example =
    update_eks_node_pool_sizes-SetTo eks_client "c" (λ w. w) (λ name. name) eks_client-IsFronting
      (node_group ∷ spare_pool ∷ []) (1 ∷ 0 ∷ []) 0 two_groups refl refl
      (
        (group, pos 3, refl, refl, refl, refl),
        (
          (
            record group { name = "spare"; desired_capacity = pos 1 },
            pos 1,
            refl,
            refl,
            refl,
            refl,
          ),
          tt,
        ),
      )

delete_tags-create_or_update_tags_example :
    (np : EksNodePool) × (create_or_update_eks_tags eks_client node_group false
        (("k", "1/5/3") ∷ [])
        three_nodes
      ≡ (none, np, three_nodes))
    × (lookup "k" np.tags ≡ some "1/5/3")
    × ((w : Sizes) → delete_eks_tags eks_client np ("k" ∷ []) w ≡ (none, with_maps node_group, w))
unfolding lookup entries_of
delete_tags-create_or_update_tags_example =
    delete_tags-create_or_update_tags eks_client node_group "k" "1/5/3" three_nodes refl refl refl
      refl (λ w. refl)

-- The resources: one that waits, and one that was taken up.
abbrev waiting : TurndownSchedule
waiting = record resource { name = "later"; status = record resource.status { state = "" } }

abbrev accepted : TurndownSchedule
accepted = resource

-- A world that is the schedule, if there is one; a resource is taken up at once.
abbrev endpoints : TurndownEndpoints (Option Schedule) String
endpoints = record {
  schedules_list = λ w. ok (waiting ∷ accepted ∷ []);
  schedules_create = λ r w. (none, some once);
  schedules_delete = λ name w. (none, none);
  get_schedule = λ w. w;
  poll_immediate = λ condition w. if condition w then (none, w) else (some (error "timed out"), w);
  unmarshal = λ b. ok (record { start = from_time; end = to_time; repeat = "" });
  marshal = λ s. ok "schedule";
  is_running_on_turndown_node = λ w. (true, none);
  prepare_turndown_environment = λ w. some (none, w);
}

endpoints-Waits : Waits endpoints.poll_immediate
endpoints-Waits condition w h = ground (arith, h)

abbrev post_request : HttpRequest String
post_request = record { method = "POST"; body = ok "{}" }

handle_start_schedule-bytes_example :
    (post_request.method ≡ "POST")
    × ((asked : ScheduleTurndownRequest) × (ok "{}" >>= endpoints.unmarshal ≡ ok asked)
        × ((endpoints.schedules_create (new_schedule asked) none).0 ≡ none))
    × (endpoints.get_schedule none ≡ none)
    × ((s : Schedule) × (endpoints.get_schedule (some once) ≡ some s)
        × (endpoints.marshal (some s) ≡ ok "schedule"))
unfolding handle_start_schedule start_schedule answer_schedule
handle_start_schedule-bytes_example =
    handle_start_schedule-bytes endpoints endpoints-Waits post_request none (some once) "schedule"
      refl

handle_cancel_schedule-first_example :
    ((handle_cancel_schedule endpoints (some once) ≡ (empty, some once))
      × All IsOther (waiting ∷ accepted ∷ []))
    ⊎ ((td : TurndownSchedule) × FirstSuccess (waiting ∷ accepted ∷ []) td
        × (let (answer, w') = handle_cancel_schedule endpoints (some once) in
            let (failed, w₁) = endpoints.schedules_delete td.name (some once) in
            (w' ≡ w₁)
            × (((failed ≡ none) × (answer ≡ empty))
                ⊎ ((e : Error) × (why : String) × (failed ≡ some e)
                    × (answer ≡ internal_server_error why)))))
handle_cancel_schedule-first_example =
    handle_cancel_schedule-first endpoints (some once) (waiting ∷ accepted ∷ []) refl

-- A master, in a world that is the list of nodes.
abbrev master : Node
master = record spare { name = "m1"; labels = some ((master_node_label_key, "") ∷ []) }

abbrev standard_cluster : StandardCluster (List Node)
standard_cluster = record {
  nodes = list_client node_names;
  deployments = still_client [];
  list_by = λ selector w. ok (keep (has_key master_node_label_key) w);
  get_deployment = λ ns name w. err (error "not found");
  delete_pods = λ ns selector w. w;
}

standard_cluster-IsServed : IsServed standard_cluster (λ w. w)
standard_cluster-IsServed = record {
  nodes = list_client-Serves node_names;
  lists = λ w. refl;
  deployments = λ ns n p w. refl;
  deletes = λ ns selector w. refl;
}

reverse_host_node-label_master_example :
    let (answer, w) = label_master standard_cluster (spare ∷ master ∷ []) in
    let host = labelled turndown_node_label "true" master in
    (answer ≡ ok host)
    × (w ≡ spare ∷ host ∷ [])
    × ((reverse_host_node standard_cluster w).1 ≡ spare ∷ master ∷ [])
unfolding lookup
reverse_host_node-label_master_example =
    reverse_host_node-label_master standard_cluster (λ w. w) standard_cluster-IsServed
      (spare ∷ master ∷ []) (spare ∷ []) [] master "" refl
      ((λ same. ground (arith, same.1, eq_iff "m1" "n1")), tt) (refl, tt) refl refl
