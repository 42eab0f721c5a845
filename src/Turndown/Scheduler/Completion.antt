-- ===== src/Turndown/Scheduler/Completion.antt =====
-- pkg/turndown/turndownscheduler.go: what happens when a job has run.
pub mod Cycle
use cluster_turndown.Prelude.{
  String, Bool, false, ◌||◌, Option, none, some, str_eq, if◌then◌else◌, pos, GoMap, get, Error,
}
use cluster_turndown.Turndown.Time.{Time, Duration, time_add}
use cluster_turndown.Turndown.Request.{
  turndown_job_type, turndown_job_repeat, type_scale_down, type_scale_up, type_reset, repeat_none,
  repeat_durations,
}
use cluster_turndown.Turndown.Schedule.{Schedule}
use cluster_turndown.Turndown.Scheduler.{
  plan_job, Parts, TurndownScheduler, JobFunc, id_of, schedule_reset, scale_down_func,
  scale_up_func, nil_func,
}

module _ {W : Type 0} (p : Parts W) where
  -- `ts.store.Update(ts.schedule)`
  pub update_store : TurndownScheduler W → Option (TurndownScheduler W)
  update_store ts = elim (p.store.update ts.schedule ts.world) [
    | none ↦ none
    | some (failed, w) ↦ some (record ts { world = w })
  ]

  -- `none` is a panic: a field of `ts.schedule` is written while it is nil.
  unfoldable pub completed_once : String → TurndownScheduler W → Option (TurndownScheduler W)
  unfolding update_store
  completed_once job_type ts =
      if str_eq job_type type_scale_up
      then some (record ts { schedule = none; world = p.store.complete ts.world })
      else if str_eq job_type type_scale_down
      then elim (ts.schedule) [
        | none ↦ none
        | some s ↦
            update_store (record ts { schedule = some (record s { current = type_scale_up }) })
      ]
      else some ts

  pub job_func : String → JobFunc
  job_func t =
      if str_eq t type_scale_down
      then scale_down_func
      else if str_eq t type_scale_up
      then scale_up_func
      else nil_func

  -- The schedule once a job of this type has been scheduled again.
  pub flipped : String → String → Time → GoMap String → Schedule → Schedule
  flipped job_type id next metadata s =
      if str_eq job_type type_scale_down
      then record s {
        current = type_scale_up;
        scale_down_id = id;
        scale_down_time = next;
        scale_down_metadata = metadata;
      }
      else if str_eq job_type type_scale_up
      then record s {
        current = type_scale_down;
        scale_up_id = id;
        scale_up_time = next;
        scale_up_metadata = metadata;
      }
      else s

  pub completed_again :
      String → String → Time → GoMap String → TurndownScheduler W → Option (TurndownScheduler W)
  unfolding plan_job job_func flipped update_store
  completed_again job_type repeat scheduled metadata ts =
      let duration : Duration = elim (repeat_durations repeat) [ none ↦ pos 0 | some d ↦ d ] in
      let next = time_add scheduled duration in
      let (id, ts') = plan_job p next (job_func job_type) metadata ts in
      elim (ts'.schedule) [
        | none ↦
            if str_eq job_type type_scale_down || str_eq job_type type_scale_up
            then none
            else update_store ts'
        | some s ↦
            update_store
              (record ts' { schedule = some (flipped job_type (id_of id) next metadata s) })
      ]

  -- The errors by which a job says that it is not to be scheduled again.
  pub is_ignored : Option Error → Bool
  is_ignored none = false
  is_ignored (some e) = str_eq e.message "EnvironmentPrepare" || str_eq e.message "Cancelled"

  -- `onJobCompleted`; its identifier is not read.
  unfoldable pub on_job_completed :
      Time → Time → GoMap String → Option Error → TurndownScheduler W → Option (TurndownScheduler W)
  unfolding schedule_reset completed_once completed_again is_ignored
  on_job_completed now scheduled metadata failed ts = elim (get metadata turndown_job_type) [
    | none ↦ some ts
    | some job_type ↦
        if str_eq job_type type_reset || is_ignored failed
        then some ts
        else (let ts₁ = record ts { last_type_completed = job_type } in
            let ts₂ = if str_eq job_type type_scale_up then schedule_reset p now ts₁ else ts₁ in
            elim (get metadata turndown_job_repeat) [
              | none ↦ completed_once job_type ts₂
              | some repeat ↦
                  if str_eq repeat repeat_none
                  then completed_once job_type ts₂
                  else completed_again job_type repeat scheduled metadata ts₂
            ])
  ]
