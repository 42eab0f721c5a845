-- ===== src/Flattener/Keeps.antt =====
-- What the flattener does not change: pkg/cluster/flattener.go only patches deployments, daemon sets and
-- cron jobs.
use cluster_turndown.Prelude.{◌≡◌, ◌∙◌, inl, inr, arith, if◌then◌else◌, Option-cases}
use cluster_turndown.Kube.{Deployment, deployment_names, daemon_set_names, cron_job_names}
use cluster_turndown.Flattener.DaemonSets.{flatten_daemon_set_change, expand_daemon_set_change}
use cluster_turndown.Flattener.CronJobs.{suspend_change, resume_change}
use cluster_turndown.Flattener.Deployments.{flatten_change, expand_change}
use cluster_turndown.Patcher.{patch_deployment, patch_daemon_set, patch_cron_job}
use cluster_turndown.Patcher.Keeps.{Keeps, patch_object-Keeps, loop-Keeps}
use cluster_turndown.Flattener.{
  Flattener, flatten_deployment, flatten_deployments, is_omitted, expand_deployments,
  flatten_daemon_sets, expand_daemon_sets, suspend_jobs, resume_jobs, Step, flatten, expand,
  expand_deployment, flatten_daemon_set, expand_daemon_set, suspend_job, resume_job, and_then,
}

-- A view of the world that no patch of the three kinds changes.
pub record AllKeep {W V : Type 0} (view : W → V) (f : Flattener W) : Type 0 where
  pub deployments : Keeps view f.deployments
  pub daemon_sets : Keeps view f.daemon_sets
  pub cron_jobs : Keeps view f.cron_jobs

module _ {W V : Type 0} (view : W → V) (f : Flattener W) (stays : AllKeep view f) where
  flatten_deployments-Keeps : (w : W) → view (flatten_deployments f w).1 ≡ view w
  unfolding flatten_deployments flatten_deployment patch_deployment
  flatten_deployments-Keeps w = loop-Keeps view (f.deployments.list w) _ each w
    where
      each :
          (d : Deployment) (w : W)
          → view (if is_omitted f d then w else (flatten_deployment f d w).1) ≡ view w
      each d w = ground (
        arith,
        patch_object-Keeps view f.deployments deployment_names stays.deployments d
            (flatten_change f.intstr) w,
      )

  expand_deployments-Keeps : (w : W) → view (expand_deployments f w).1 ≡ view w
  unfolding expand_deployments expand_deployment patch_deployment
  expand_deployments-Keeps w = loop-Keeps view (f.deployments.list w) _ each w
    where
      each :
          (d : Deployment) (w : W)
          → view (if is_omitted f d then w else (expand_deployment f d w).1) ≡ view w
      each d w = ground (
        arith,
        patch_object-Keeps view f.deployments deployment_names stays.deployments d
            (expand_change f.intstr) w,
      )

  flatten_daemon_sets-Keeps : (w : W) → view (flatten_daemon_sets f w).1 ≡ view w
  unfolding flatten_daemon_sets flatten_daemon_set patch_daemon_set
  flatten_daemon_sets-Keeps w =
      loop-Keeps view (f.daemon_sets.list w) _
        (λ d w.
          patch_object-Keeps view f.daemon_sets daemon_set_names stays.daemon_sets d
            flatten_daemon_set_change w)
        w

  expand_daemon_sets-Keeps : (w : W) → view (expand_daemon_sets f w).1 ≡ view w
  unfolding expand_daemon_sets expand_daemon_set patch_daemon_set
  expand_daemon_sets-Keeps w =
      loop-Keeps view (f.daemon_sets.list w) _
        (λ d w.
          patch_object-Keeps view f.daemon_sets daemon_set_names stays.daemon_sets d
            expand_daemon_set_change w)
        w

  pub suspend_jobs-Keeps : (w : W) → view (suspend_jobs f w).1 ≡ view w
  unfolding suspend_jobs suspend_job patch_cron_job
  suspend_jobs-Keeps w =
      loop-Keeps view (f.cron_jobs.list w) _
        (λ d w.
          patch_object-Keeps view f.cron_jobs cron_job_names stays.cron_jobs d suspend_change w)
        w

  pub resume_jobs-Keeps : (w : W) → view (resume_jobs f w).1 ≡ view w
  unfolding resume_jobs resume_job patch_cron_job
  resume_jobs-Keeps w =
      loop-Keeps view (f.cron_jobs.list w) _
        (λ d w.
          patch_object-Keeps view f.cron_jobs cron_job_names stays.cron_jobs d resume_change w)
        w

  and_then-Keeps :
      (g h : Step W)
      → ((w : W) → view (g w).1 ≡ view w)
      → ((w : W) → view (h w).1 ≡ view w)
      → (w : W) → view (and_then g h w).1 ≡ view w
  and_then-Keeps g h first second w = elim (Option-cases ((g w).0)) [
    | inl fine ↦ rw (fine, and_then) (second (g w).1 ∙ first w)
    | inr (e, failed) ↦ rw (failed, and_then) (first w)
  ]

  pub flatten-Keeps : (w : W) → view (flatten f w).1 ≡ view w
  unfolding flatten
  flatten-Keeps =
      and_then-Keeps (flatten_deployments f) (and_then (flatten_daemon_sets f) (suspend_jobs f))
        flatten_deployments-Keeps
        (and_then-Keeps (flatten_daemon_sets f) (suspend_jobs f) flatten_daemon_sets-Keeps
          suspend_jobs-Keeps)

  pub expand-Keeps : (w : W) → view (expand f w).1 ≡ view w
  unfolding expand
  expand-Keeps =
      and_then-Keeps (expand_deployments f) (and_then (expand_daemon_sets f) (resume_jobs f))
        expand_deployments-Keeps
        (and_then-Keeps (expand_daemon_sets f) (resume_jobs f) expand_daemon_sets-Keeps
          resume_jobs-Keeps)
