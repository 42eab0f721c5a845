-- ===== src/Flattener/CronJobs.antt =====
-- pkg/cluster/flattener.go: what suspending and resuming change of one cron job.
pub mod Restore
use cluster_turndown.Prelude.{
  String, true, false, Option, none, some, get, put, delete, Error, error,
}
use cluster_turndown.Strconv.{format_bool, parse_bool}
use cluster_turndown.Kube.{CronJob}

abbrev pub turn_down_job_suspend : String
turn_down_job_suspend = "kubecost.kubernetes.io/job-suspend"

-- The patch function of `SuspendJob`.
pub suspend_change : CronJob → CronJob × Option Error
suspend_change job = elim (job.suspend) [
  | none ↦ (record job { suspend = some true }, none)
  | some previous_value ↦ (
    record job {
      suspend = some true;
      annotations = put job.annotations turn_down_job_suspend (format_bool previous_value);
    },
    none,
  )
]

-- The patch function of `ResumeJob`.
pub resume_change : CronJob → CronJob × Option Error
resume_change job = elim (get job.annotations turn_down_job_suspend) [
  | none ↦ (record job { suspend = some false }, none)
  | some suspend_entry ↦ elim (parse_bool suspend_entry) [
    | none ↦ (job, some (error "invalid syntax"))
    | some suspend ↦ (
      record job {
        annotations = delete job.annotations turn_down_job_suspend;
        suspend = some suspend;
      },
      none,
    )
  ]
]
