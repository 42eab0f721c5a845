-- ===== src/Flattener.antt =====
-- pkg/cluster/flattener.go: the loops over all deployments, daemon sets and cron jobs of the cluster.
pub mod Deployments
pub mod DaemonSets
pub mod CronJobs
pub mod Cluster
pub mod Keeps
use cluster_turndown.Prelude.{
  String, Bool, true, false, not, ◌&&◌, ◌||◌, Option, none, some, List, [], ◌∷◌, str_eq,
  if◌then◌else◌, GoMap, get, Error, Result, ok, err,
}
use cluster_turndown.Kube.{Deployment, DaemonSet, CronJob, Client}
use cluster_turndown.Patcher.{patch_deployment, patch_daemon_set, patch_cron_job}
use cluster_turndown.Patcher.Loop.{for_each}
use Deployments.{
  IntStr, turn_down_replicas, turn_down_rollout, turn_down_safe_evict_flag, flatten_change,
  expand_change,
}
use DaemonSets.{flatten_daemon_set_change, expand_daemon_set_change}
use CronJobs.{turn_down_job_suspend, suspend_change, resume_change}

-- The flattener's client has one view for each kind of object.
pub record Flattener (W : Type 0) : Type 1 where
  pub deployments : Client W Deployment
  pub daemon_sets : Client W DaemonSet
  pub cron_jobs : Client W CronJob
  pub intstr : IntStr
  pub omit_deployments : List String

-- The error that a function returns in a world that it leaves behind.
abbrev pub Step : Type 0 → Type 0
Step W = W → Option Error × W

-- `err = f(); if err != nil { return err }; g()`
abbrev pub and_then : {W : Type 0} → Step W → Step W → Step W
and_then f g w = let (failed, w') = f w in elim failed [ none ↦ g w' | some e ↦ (some e, w') ]

unfoldable pub names_omitted : List String → String → Bool
names_omitted [] name = false
names_omitted (d ∷ ds) name = str_eq d name || names_omitted ds name

has_key : GoMap String → String → Bool
has_key m k = elim (get m k) [ none ↦ false | some v ↦ true ]

any : {D : Type 0} → (D → Bool) → List D → Bool
any p [] = false
any p (d ∷ ds) = p d || any p ds

-- The objects of a list that could not be fetched are passed over.
fetched : {D : Type 0} → Result (List D) → List D
fetched (ok ds) = ds
fetched (err e) = []

module _ {W : Type 0} (f : Flattener W) where
  unfoldable pub is_omitted : Deployment → Bool
  unfolding names_omitted
  is_omitted d = names_omitted f.omit_deployments d.name

  pub flatten_deployment : Deployment → W → Result Deployment × W
  flatten_deployment d = patch_deployment f.deployments d (flatten_change f.intstr)

  pub expand_deployment : Deployment → W → Result Deployment × W
  expand_deployment d = patch_deployment f.deployments d (expand_change f.intstr)

  pub flatten_daemon_set : DaemonSet → W → Result DaemonSet × W
  flatten_daemon_set d = patch_daemon_set f.daemon_sets d flatten_daemon_set_change

  pub expand_daemon_set : DaemonSet → W → Result DaemonSet × W
  expand_daemon_set d = patch_daemon_set f.daemon_sets d expand_daemon_set_change

  pub suspend_job : CronJob → W → Result CronJob × W
  suspend_job j = patch_cron_job f.cron_jobs j suspend_change

  pub resume_job : CronJob → W → Result CronJob × W
  resume_job j = patch_cron_job f.cron_jobs j resume_change

  -- An error in the body of a loop is written to the log, and the loop goes on.
  pub flatten_deployments : Step W
  unfolding flatten_deployment is_omitted
  flatten_deployments w = elim (f.deployments.list w) [
    | err e ↦ (some e, w)
    | ok items ↦
        (none, for_each (λ d w. if is_omitted d then w else (flatten_deployment d w).1) items w)
  ]

  pub expand_deployments : Step W
  unfolding expand_deployment is_omitted
  expand_deployments w = elim (f.deployments.list w) [
    | err e ↦ (some e, w)
    | ok items ↦
        (none, for_each (λ d w. if is_omitted d then w else (expand_deployment d w).1) items w)
  ]

  pub flatten_daemon_sets : Step W
  unfolding flatten_daemon_set
  flatten_daemon_sets w = elim (f.daemon_sets.list w) [
    | err e ↦ (some e, w)
    | ok items ↦ (none, for_each (λ d w. (flatten_daemon_set d w).1) items w)
  ]

  pub expand_daemon_sets : Step W
  unfolding expand_daemon_set
  expand_daemon_sets w = elim (f.daemon_sets.list w) [
    | err e ↦ (some e, w)
    | ok items ↦ (none, for_each (λ d w. (expand_daemon_set d w).1) items w)
  ]

  unfoldable pub suspend_jobs : Step W
  unfolding suspend_job
  suspend_jobs w = elim (f.cron_jobs.list w) [
    | err e ↦ (some e, w)
    | ok items ↦ (none, for_each (λ j w. (suspend_job j w).1) items w)
  ]

  pub resume_jobs : Step W
  unfolding resume_job
  resume_jobs w = elim (f.cron_jobs.list w) [
    | err e ↦ (some e, w)
    | ok items ↦ (none, for_each (λ j w. (resume_job j w).1) items w)
  ]

  pub flatten : Step W
  unfolding flatten_deployments flatten_daemon_sets suspend_jobs
  flatten = and_then flatten_deployments (and_then flatten_daemon_sets suspend_jobs)

  pub expand : Step W
  unfolding expand_deployments expand_daemon_sets resume_jobs
  expand = and_then expand_deployments (and_then expand_daemon_sets resume_jobs)

  deployment_flattened : Deployment → Bool
  unfolding is_omitted has_key
  deployment_flattened d =
      not (is_omitted d)
      && (has_key d.annotations turn_down_safe_evict_flag
          || has_key d.annotations turn_down_replicas
          || has_key d.annotations turn_down_rollout)

  pub is_cluster_flattened : W → Bool
  unfolding any fetched deployment_flattened has_key
  is_cluster_flattened w =
      any deployment_flattened (fetched (f.deployments.list w))
      || any (λ (d : DaemonSet). has_key d.annotations turn_down_safe_evict_flag)
          (fetched (f.daemon_sets.list w))
      || any (λ (j : CronJob). has_key j.annotations turn_down_job_suspend)
          (fetched (f.cron_jobs.list w))
