-- ===== src/Flattener/CronJobs/Restore.antt =====
-- Resuming a cron job that was suspended, once and twice.
use cluster_turndown.Prelude.{
  ◌≡◌, inl, inr, Bool, true, false, none, some, arith, eq_iff, Option-cases, get, put, get-put,
  get-delete, SameMap,
}
use cluster_turndown.Strconv.{format_bool}
use cluster_turndown.Strconv.RoundTrip.{parse_bool-format_bool}
use cluster_turndown.Kube.{CronJob}
use cluster_turndown.Flattener.CronJobs.{turn_down_job_suspend, suspend_change, resume_change}

-- What the API server takes an absent `suspend` for.
abbrev pub is_suspended : CronJob → Bool
is_suspended j = elim (j.suspend) [ none ↦ false | some b ↦ b ]

-- A cron job without the program's annotation is suspended by the first patch function; resuming it
-- succeeds, and it is then suspended just if it was before, with the same annotations and name.
pub resume-suspend :
    (j : CronJob)
    → get j.annotations turn_down_job_suspend ≡ none
    → let s = (suspend_change j).0 in
      let r = (resume_change s).0 in
      (is_suspended s ≡ true)
      × ((resume_change s).1 ≡ none)
      × (is_suspended r ≡ is_suspended j)
      × SameMap r.annotations j.annotations
      × (r.name ≡ j.name)
      × (r.namespace ≡ j.namespace)
unfolding suspend_change resume_change
resume-suspend j fresh = elim (Option-cases j.suspend) [
  | inl e ↦ (
    ground arith,
    ground (arith, fresh, e),
    ground (arith, fresh, e),
    λ k. ground (arith, fresh, e),
    ground arith,
    ground arith,
  )
  | inr (b, e) ↦
      let written =
        get-put j.annotations turn_down_job_suspend turn_down_job_suspend (format_bool b) in
      (
        ground arith,
        ground (arith, e, written, parse_bool-format_bool b),
        ground (arith, e, written, parse_bool-format_bool b),
        λ k. ground (
          arith,
          e,
          written,
          parse_bool-format_bool b,
          fresh,
          get-put j.annotations turn_down_job_suspend k (format_bool b),
          get-delete (put j.annotations turn_down_job_suspend (format_bool b)) turn_down_job_suspend
              k,
          eq_iff turn_down_job_suspend k,
        ),
        ground (arith, e, written),
        ground (arith, e, written),
      )
]

-- A job that is suspended is still so after it is suspended and resumed.
resume-suspend_suspended :
    (j : CronJob)
    → j.suspend ≡ some true
    → (resume_change (suspend_change j).0).0.suspend ≡ some true
unfolding suspend_change resume_change
resume-suspend_suspended j e = ground (
  arith,
  e,
  get-put j.annotations turn_down_job_suspend turn_down_job_suspend (format_bool true),
  parse_bool-format_bool true,
)

suspend_change-suspend : (j : CronJob) → (suspend_change j).0.suspend ≡ some true
unfolding suspend_change
suspend_change-suspend j = ground arith

-- Suspending twice in a row records the first suspension as the job's own: whatever the job was, it is
-- still suspended after it is resumed.
pub resume-suspend_twice :
    (j : CronJob) → (resume_change (suspend_change (suspend_change j).0).0).0.suspend ≡ some true
resume-suspend_twice j = resume-suspend_suspended (suspend_change j).0 (suspend_change-suspend j)
