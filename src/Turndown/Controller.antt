-- ===== src/Turndown/Controller.antt =====
-- pkg/turndown/schedulecontroller.go: what the resource controller does for a key of its work queue, and
-- the pruning of old resources.
pub mod Deletion
pub mod Worker
use cluster_turndown.Prelude.{
  String, Bool, false, not, ◌&&◌, Option, none, some, str_eq, if◌then◌else◌, keep, ◌-ℤ◌, Error,
  is_not_found, Result, ok, err,
}
use cluster_turndown.Strconv.{equal_fold}
use cluster_turndown.Patcher.Loop.{for_each}
use cluster_turndown.Turndown.Time.{Time, Duration, is_before}
use cluster_turndown.Turndown.Schedule.{Schedule}
use cluster_turndown.Turndown.Store.{
  TurndownSchedule, TurndownScheduleStatus, ScheduleClient, schedule_state_success,
  write_schedule_status,
}
use cluster_turndown.Turndown.Scheduler.{Parts, TurndownScheduler, schedule_turndown}
use cluster_turndown.Turndown.Scheduler.Control.{cancel}

abbrev schedule_state_failed : String
schedule_state_failed = "ScheduleFailed"

abbrev pub turndown_schedule_finalizer : String
turndown_schedule_finalizer = "finalizer.kubecost.com"

-- What the controller calls of client-go: the split of a key, the lister, and the client set.
pub record ResourceClient (W : Type 0) : Type 0 where
  pub split_key : String → Result String
  pub lister_get : String → W → Result TurndownSchedule
  pub schedules : ScheduleClient W
  pub update : TurndownSchedule → W → Result TurndownSchedule × W
  pub delete : String → W → W

abbrev error_of : {A : Type 0} → Result A → Option Error
error_of (ok a) = none
error_of (err e) = some e

-- The two identifiers of a resource are those of the schedule.
abbrev pub is_schedule_of : TurndownSchedule → Schedule → Bool
is_schedule_of td s =
    equal_fold s.scale_down_id td.status.scale_down_id
    && equal_fold s.scale_up_id td.status.scale_up_id

-- A resource that is pruned: any that is not in the state of success and was not updated lately.
pub is_pruned : Time → Duration → TurndownSchedule → Bool
is_pruned now max_age td =
    not (str_eq td.status.state schedule_state_success)
    && is_before td.status.last_updated (now -ℤ max_age)

module _ {W : Type 0} (p : Parts W) (c : ResourceClient W) where
  -- A call of the client set, in the world of the scheduler.
  abbrev call :
      (W → Result TurndownSchedule × W) → TurndownScheduler W → Option Error × TurndownScheduler W
  call f ts = let (answer, w) = f ts.world in (error_of answer, record ts { world = w })

  try_schedule : Time → TurndownSchedule → TurndownScheduler W → Option Error × TurndownScheduler W
  unfolding write_schedule_status
  try_schedule now td ts =
      let (tds, ts') = schedule_turndown p now td.start td.end td.repeat ts in
      let status : TurndownScheduleStatus = record td.status { last_updated = now } in
      let decided : TurndownScheduleStatus = elim tds [
        | err e ↦ record status { state = schedule_state_failed }
        | ok s ↦ write_schedule_status now (record status { state = schedule_state_success }) s
      ] in
      call (c.schedules.update_status (record td { status = decided })) ts'

  pub clear_finalizer : TurndownSchedule → TurndownScheduler W → Option Error × TurndownScheduler W
  clear_finalizer td ts =
      let kept = keep (λ f. not (equal_fold turndown_schedule_finalizer f)) td.finalizers in
      call (c.update (record td { finalizers = kept })) ts

  pub try_cancel :
      Time → TurndownSchedule → TurndownScheduler W → Option Error × TurndownScheduler W
  unfolding clear_finalizer
  try_cancel now td ts = elim (ts.schedule) [
    | none ↦ clear_finalizer td ts
    | some s ↦
        if is_schedule_of td s
        then (let (failed, ts') = cancel p now false ts in
            elim failed [ some e ↦ (some e, ts') | none ↦ clear_finalizer td ts' ])
        else clear_finalizer td ts
  ]

  unfoldable pub handle : Time → String → TurndownScheduler W → Option Error × TurndownScheduler W
  unfolding try_schedule clear_finalizer try_cancel
  handle now key ts = elim (c.split_key key) [
    | err e ↦ (none, ts)
    | ok name ↦ elim (c.lister_get name ts.world) [
      | err e ↦ if is_not_found e then (none, ts) else (some e, ts)
      | ok td ↦
          if td.is_deleted
          then (if str_eq td.status.state schedule_state_success
              then try_cancel now td ts
              else clear_finalizer td ts)
          else if str_eq td.status.state ""
          then try_schedule now td ts
          else (none, ts)
    ]
  ]

  pub clear_completed_schedules : Time → Duration → W → W
  unfolding is_pruned
  clear_completed_schedules now max_age w = elim (c.schedules.list w) [
    | err e ↦ w
    | ok tds ↦ for_each (λ td w. if is_pruned now max_age td then c.delete td.name w else w) tds w
  ]
