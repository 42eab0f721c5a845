-- ===== src/Examples/Flattening.antt =====
-- The theorems on the flattener, at the objects of the small cluster.
use cluster_turndown.Prelude.{
  String, ◌≡◌, refl, ◌≢◌, true, none, some, List, [], ◌∷◌, arith, eq_iff, All, Pairs, pos, lookup,
  get, SameMap, ok,
}
use cluster_turndown.Kube.{Deployment, deployment_names, IntOrString, int}
use cluster_turndown.Kube.Stored.{SameName, Distinct}
use cluster_turndown.Flattener.{flatten_deployments, expand_deployments}
use cluster_turndown.Flattener.Deployments.{
  turn_down_safe_evict_flag, cluster_auto_scaler_safe_evict, turn_down_replicas, turn_down_rollout,
  flatten_change, expand_change,
}
use cluster_turndown.Patcher.{no_updates}
use cluster_turndown.Flattener.Deployments.Repeat.{flatten_again}
use cluster_turndown.Flattener.Deployments.Restore.{Restored, expand-flatten}
use cluster_turndown.Flattener.Deployments.SafeEvict.{expand-flatten_kube_system}
use cluster_turndown.Flattener.CronJobs.{suspend_change, resume_change}
use cluster_turndown.Flattener.DaemonSets.{expand_daemon_set_change, flatten_daemon_set_change}
use cluster_turndown.Flattener.CronJobs.Restore.{is_suspended, resume-suspend}
use cluster_turndown.Flattener.DaemonSets.Restore.{expand-flatten_daemon_set}
use cluster_turndown.Flattener.Cluster.{IsFresh, expand-flatten_cluster}
use cluster_turndown.Turndown.Manager.{Provider, KubernetesTurndownManager, scale_down_cluster}
use cluster_turndown.Turndown.Manager.Fixed.{IsFixed, scale_down_cluster-IsFixed}
use cluster_turndown.Examples.Groups.{workers}
use cluster_turndown.Examples.Objects.{
  web, dns, agent, nightly, flattener, idle_client, plain_intstr, list_client-Serves,
}

web_fresh : get web.annotations turn_down_replicas ≡ none
unfolding lookup
web_fresh = refl

web_fresh_rollout : get web.annotations turn_down_rollout ≡ none
unfolding lookup
web_fresh_rollout = refl

expand-flatten_example :
    ((flatten_change plain_intstr web).0.replicas ≡ pos 0)
    × Restored web (expand_change plain_intstr (flatten_change plain_intstr web).0).0
expand-flatten_example =
    expand-flatten plain_intstr web refl (omega arith) web_fresh web_fresh_rollout

web-IsFresh : IsFresh web
web-IsFresh = record {
  fits = omega arith;
  no_replicas = web_fresh;
  no_rollout = web_fresh_rollout;
  system_entries = λ e. ground (arith, e);
  system_flag = λ e. ground (arith, e);
}

dns-IsFresh : IsFresh dns
unfolding lookup
dns-IsFresh = record {
  fits = omega arith;
  no_replicas = refl;
  no_rollout = refl;
  system_entries = λ e. (("team", "core") ∷ [], refl, refl);
  system_flag = λ e. ground (arith, e);
}

two_are-Distinct : Distinct deployment_names (web ∷ dns ∷ [])
two_are-Distinct = (
  (
    λ (h : SameName deployment_names web dns). ground (arith, h.0, eq_iff "default" "kube-system"),
    tt,
  ),
  (tt, tt),
)

expand-flatten_cluster_example :
    let v = (flatten_deployments flattener (web ∷ dns ∷ [])).1 in
    ((expand_deployments flattener v).0 ≡ none)
    × Pairs Restored (web ∷ dns ∷ []) (expand_deployments flattener v).1
expand-flatten_cluster_example =
    expand-flatten_cluster flattener (list_client-Serves deployment_names) (web ∷ dns ∷ [])
      two_are-Distinct (web-IsFresh, (dns-IsFresh, tt))

abbrev two : IntOrString
two = record { type = int; int_val = pos 2; str_val = "" }

no_flag : lookup {V = String} turn_down_safe_evict_flag (("team", "core") ∷ []) ≡ none
unfolding lookup
no_flag = refl

dns_flag : get dns.template_annotations cluster_auto_scaler_safe_evict ≢ some ""
dns_flag = λ e. ground (arith, e)

expand-flatten_kube_system_example :
    Restored dns (expand_change plain_intstr (flatten_change plain_intstr dns).0).0
expand-flatten_kube_system_example =
    expand-flatten_kube_system plain_intstr dns (("team", "core") ∷ []) refl refl no_flag dns_flag

agent_flag : get agent.template_annotations cluster_auto_scaler_safe_evict ≢ some ""
agent_flag = λ e. ground (arith, e)

expand-flatten_daemon_set_example :
    let e = (expand_daemon_set_change (flatten_daemon_set_change agent).0).0 in
    (e.annotations ≡ agent.annotations)
    × SameMap e.template_annotations agent.template_annotations
    × (e.name ≡ agent.name)
    × (e.namespace ≡ agent.namespace)
expand-flatten_daemon_set_example =
    expand-flatten_daemon_set agent (("team", "core") ∷ []) refl no_flag agent_flag

resume-suspend_example :
    let s = (suspend_change nightly).0 in
    let r = (resume_change s).0 in
    (is_suspended s ≡ true)
    × ((resume_change s).1 ≡ none)
    × (is_suspended r ≡ is_suspended nightly)
    × SameMap r.annotations nightly.annotations
    × (r.name ≡ nightly.name)
    × (r.namespace ≡ nightly.namespace)
resume-suspend_example = resume-suspend nightly refl

-- One pool that scales by itself, and one that does not.
abbrev provider : Provider (List Deployment)
provider = record {
  get_node_pools = λ w. ok (
      record workers { name = "spot"; auto_scaling = true }
      ∷ record workers { name = "base" }
      ∷ []);
  get_pool_id = λ n. "spot";
  set_node_pool_sizes = λ nps size w. (none, nps, w);
  reset_node_pool_sizes = λ nps w. some (none, nps, w);
  drain = λ name w. w;
}

abbrev cluster_manager : KubernetesTurndownManager (List Deployment)
cluster_manager = record {
  current_node = "small";
  node_pools = [];
  auto_scaling = none;
  world = web ∷ [];
}

scale_down_cluster-IsFixed_example :
    All IsFixed (scale_down_cluster idle_client provider flattener cluster_manager).1.node_pools
scale_down_cluster-IsFixed_example =
    scale_down_cluster-IsFixed idle_client provider flattener (λ nps n w fixed. fixed)
      cluster_manager tt

-- A deployment without a rolling update, flattened twice.
abbrev plain_web : Deployment
plain_web = record web { rolling_update = none }

flatten_again_example :
    flatten_change plain_intstr (flatten_change plain_intstr plain_web).0
    ≡ ((flatten_change plain_intstr plain_web).0, some no_updates)
flatten_again_example = flatten_again plain_intstr plain_web refl refl
