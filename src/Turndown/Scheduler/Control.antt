-- ===== src/Turndown/Scheduler/Control.antt =====
-- pkg/turndown/turndownscheduler.go: cancelling and reading the schedule, and the functions of the jobs.
pub mod Cancelling
use cluster_turndown.Prelude.{
  Bool, true, not, ◌&&◌, ◌||◌, Option, none, some, str_eq, if◌then◌else◌, Error,
}
use cluster_turndown.Turndown.Time.{Time}
use cluster_turndown.Turndown.Request.{
  type_scale_down, cancelled_err, environment_prepare_err, no_schedules_to_cancel_err,
  cancel_while_running_err,
}
use cluster_turndown.Turndown.Schedule.{Schedule}
use cluster_turndown.Turndown.Jobs
use cluster_turndown.Turndown.Scheduler.{
  Parts, TurndownScheduler, cancel_job, clear_store, schedule_reset,
}

module _ {W : Type 0} (p : Parts W) where
  -- The part of `Cancel` for a cluster that is scaled down.
  unfoldable pub scale_up_after_cancel : Time → TurndownScheduler W → TurndownScheduler W
  unfolding schedule_reset
  scale_up_after_cancel now ts =
      if str_eq ts.last_type_completed type_scale_down
      then schedule_reset p now (record ts { world = (p.manager.scale_up_cluster ts.world).1 })
      else ts

  pub cancel : Time → Bool → TurndownScheduler W → Option Error × TurndownScheduler W
  unfolding cancel_job clear_store scale_up_after_cancel
  cancel now force ts = elim (ts.schedule) [
    | none ↦ (some no_schedules_to_cancel_err, ts)
    | some s ↦
        if not force
          && (Jobs.is_running ts.scheduler s.scale_down_id
              || Jobs.is_running ts.scheduler s.scale_up_id)
        then (some cancel_while_running_err, ts)
        else (
          none,
          scale_up_after_cancel now (
              clear_store p (record (cancel_job s.scale_up_id (cancel_job s.scale_down_id ts)) {
                schedule = none;
              })),
        )
  ]

  pub get_schedule : TurndownScheduler W → Option Schedule
  get_schedule ts = ts.schedule

  pub scale_down : Time → TurndownScheduler W → Option Error × TurndownScheduler W
  unfolding cancel
  scale_down now ts =
      if (p.manager.is_running_on_turndown_node ts.world).0
      then (let (failed, w) = p.manager.scale_down_cluster ts.world in
          (failed, record ts { world = w }))
      else (let (failed, w) = p.manager.prepare_turndown_environment ts.world in
          elim failed [
            | some e ↦ (some cancelled_err, (cancel now true (record ts { world = w })).1)
            | none ↦ (some environment_prepare_err, record ts { world = w })
          ])

  pub scale_up : TurndownScheduler W → Option Error × TurndownScheduler W
  scale_up ts =
      let (failed, w) = p.manager.scale_up_cluster ts.world in (failed, record ts { world = w })

  pub reset : TurndownScheduler W → Option Error × TurndownScheduler W
  reset ts =
      let (failed, w) = p.manager.reset_turndown_environment ts.world in
      (failed, record ts { world = w })
