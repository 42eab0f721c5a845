-- ===== src/Examples/Hosting.antt =====
-- The theorems on the goroutines of jobs and on the node of the turndown pod, at small inputs.
use cluster_turndown.Prelude.{
  String, ◌≡◌, refl, ap, ◌∙◌, true, false, ◌&&◌, Option, none, some, List, [], ◌∷◌, ◌++◌, arith,
  str_eq, eq_iff, if◌then◌else◌, pos, lookup, insert, error, Result, ok, err,
}
use cluster_turndown.Kube.{Node, Deployment, Client, deployment_names}
use cluster_turndown.Kube.Stored.{Absent}
use cluster_turndown.Turndown.Request.{type_scale_down, repeat_none}
use cluster_turndown.Turndown.Schedule.{Schedule}
use cluster_turndown.Turndown.Jobs
use cluster_turndown.Turndown.Jobs.{Routine, JobScheduler, fired, running}
use cluster_turndown.Turndown.Jobs.Routines.{
  Step, has_routine, routine_at, move_to, enter, Reach, schedules, fires, enters, at_start,
  one_more,
}
use cluster_turndown.Turndown.Jobs.Routines.Running.{has_entered}
use cluster_turndown.Turndown.Jobs.Routines.Late.{is_running-cancel_fired}
use cluster_turndown.Turndown.Jobs.Routines.Exact.{is_running-Reach}
use cluster_turndown.Turndown.Scheduler.{job_metadata}
use cluster_turndown.Turndown.Manager.Environment.{
  Surroundings, turndown_namespace, turndown_deployment, prepare_turndown_environment,
  reset_turndown_environment,
}
use cluster_turndown.Turndown.Manager.Standard.{
  StandardCluster, master_node, label_master, master_node_label_key, allow_master, disallow_master,
  standard_strategy,
}
use cluster_turndown.Turndown.Manager.Standard.Prepared.{
  Standing, reset_environment-prepare_environment,
}
use cluster_turndown.Patcher.Labels.{labelled}
use cluster_turndown.Pools.Resize.{turndown_node_label}
use cluster_turndown.Examples.Planner.{from_time, to_time}
use cluster_turndown.Examples.Objects.{list_client, list_client-Serves, web}

-- One job, scheduled, past its timer and entered.
abbrev scheduled_one : JobScheduler String
scheduled_one = (Jobs.schedule_with_id "a" (pos 5) "job" none Jobs.new_simple_scheduler).1

abbrev entered_one : JobScheduler String
entered_one = enter "a" (move_to running 0 (move_to fired 0 scheduled_one))

entered_one-Reach : Reach Jobs.new_simple_scheduler entered_one
unfolding Jobs.new_simple_scheduler Jobs.schedule_with_id move_to enter has_routine routine_at
entered_one-Reach =
    one_more
      (one_more (one_more at_start (schedules "a" (pos 5) "job" none refl)) (fires 0 _ refl refl))
      (enters 0 _ refl refl)

is_running-Reach_example : Jobs.is_running entered_one "a" ≡ has_entered "a" entered_one.routines
is_running-Reach_example = is_running-Reach entered_one entered_one-Reach "a"

-- The same job, only past its timer.
abbrev fired_one : JobScheduler String
fired_one = move_to fired 0 scheduled_one

abbrev fired_routine : Routine String
fired_routine = record {
  simple_job = record { id = "a"; next = pos 5; job = "job"; cancel = 0; metadata = none };
  is_cancelled = false;
  phase = fired;
}

is_running-cancel_fired_example :
    let s = (Jobs.cancel "a" fired_one).1 in
    (lookup "a" s.jobs ≡ none)
    × (Jobs.is_running s "a" ≡ false)
    × ((t : JobScheduler String) × Step s t
        × (Jobs.is_running t "a" ≡ true)
        × (lookup "a" t.jobs ≡ none))
unfolding Jobs.new_simple_scheduler Jobs.schedule_with_id move_to routine_at Jobs.is_running lookup
is_running-cancel_fired_example = is_running-cancel_fired 0 fired_one fired_routine refl refl refl

abbrev pub once : Schedule
once = record {
  current = type_scale_down;
  scale_down_id = "a";
  scale_down_time = from_time;
  scale_down_metadata = job_metadata type_scale_down repeat_none;
  scale_up_id = "b";
  scale_up_time = to_time;
  scale_up_metadata = none;
}

-- The deployment of the turndown pod, in a world that is the list of deployments.
abbrev turndown : Deployment
turndown = record web { namespace = "turndown"; name = "cluster-turndown" }

abbrev pub spare : Node
spare = record {
  name = "n1";
  labels = none;
  unschedulable = false;
  taints = [];
  provider_id = "aws:///a/i-1";
}

find_deployment : String → String → List Deployment → Result Deployment
find_deployment ns n [] = err (error "not found")
find_deployment ns n (d ∷ ds) =
    let rest = find_deployment ns n ds in
    if str_eq d.namespace ns && str_eq d.name n then ok d else rest

abbrev surroundings : Surroundings (List Deployment)
surroundings = record {
  getenv = λ k. "";
  list_turndown_nodes = λ w. ok [];
  get_deployment = find_deployment;
}

abbrev master : Node
master = record spare { labels = some ((master_node_label_key, "") ∷ []) }

-- A client of nodes that are kept elsewhere.
abbrev served_nodes : Client (List Deployment) Node
served_nodes = record {
  Bytes = Option Node;
  Patch = Node;
  list = λ w. ok (master ∷ []);
  marshal = λ n. ok (some n);
  no_bytes = none;
  two_way_patch = λ a b n. ok n;
  patch = λ ns name n w. (ok n, w);
}

abbrev standing_cluster : StandardCluster (List Deployment)
standing_cluster = record {
  nodes = served_nodes;
  deployments = list_client deployment_names;
  list_by = λ selector w. ok (master ∷ []);
  get_deployment = find_deployment;
  delete_pods = λ ns selector w. w;
}

find_deployment-found :
    (pre post : List Deployment) (d : Deployment)
    → Absent deployment_names d pre
    → find_deployment d.namespace d.name (pre ++ d ∷ post) ≡ ok d
unfolding find_deployment
find_deployment-found [] post d a =
    ground (arith, eq_iff d.namespace d.namespace, eq_iff d.name d.name)
find_deployment-found (x ∷ pre) post d (differs, a) = ground (
  arith,
  differs,
  eq_iff x.namespace d.namespace,
  eq_iff x.name d.name,
  find_deployment-found pre post d a,
)

standing_cluster-Standing : Standing standing_cluster surroundings (λ w. w)
unfolding master_node
standing_cluster-Standing = record {
  serves = list_client-Serves deployment_names;
  finds = λ w pre post d here absent.
      let found =
        ap (find_deployment d.namespace d.name) here ∙ find_deployment-found pre post d absent in
      (found, found);
  nodes = λ ns n p w. refl;
  deletes = λ ns selector w. refl;
  masters = λ w. (master, refl);
}

abbrev kube_dns : Deployment
kube_dns = record web { namespace = "kube-system"; name = "kube-dns" }

reset_environment-prepare_environment_example :
    (w₁ : List Deployment) × (prepare_turndown_environment
        (list_client deployment_names)
        surroundings
        (standard_strategy standing_cluster)
        (kube_dns ∷ turndown ∷ web ∷ [])
      ≡ some (none, w₁))
    × (w₁
        ≡ (allow_master kube_dns).0
          ∷ record turndown {
            tolerations =
                record { key = master_node_label_key; operator = "Exists"; effect = "NoSchedule" }
                ∷ [];
            node_selector = some ((turndown_node_label, "true") ∷ []);
          }
          ∷ web
          ∷ [])
    × (let (failed, w₂) =
          reset_turndown_environment
            (list_client deployment_names)
            surroundings
            (standard_strategy standing_cluster)
            w₁ in
        (failed ≡ none)
        × (w₂
            ≡ (disallow_master (allow_master kube_dns).0).0
              ∷ record turndown { tolerations = []; node_selector = some [] }
              ∷ web
              ∷ []))
unfolding turndown_namespace turndown_deployment label_master insert
reset_environment-prepare_environment_example =
    reset_environment-prepare_environment standing_cluster surroundings (λ w. w)
      standing_cluster-Standing [] [] (web ∷ []) kube_dns turndown
      (labelled turndown_node_label "true" master) (kube_dns ∷ turndown ∷ web ∷ []) (refl, refl)
      (refl, refl) tt ((λ same. ground (arith, same.0, eq_iff "turndown" "kube-system")), tt) refl
      refl
