-- ===== src/Turndown/Scheduler.antt =====
-- pkg/turndown/turndownscheduler.go: one turndown schedule at a time, as two jobs that come back. A
-- method takes the state and returns the new one; `time.Now()` is an argument.
pub mod Starting
pub mod Restoring
pub mod Control
pub mod Completion
use cluster_turndown.Prelude.{
  ℕ, String, Bool, ◌&&◌, Option, none, some, [], ◌∷◌, str_eq, if◌then◌else◌, pos, GoMap, get_text,
  Error, Result, ok, err,
}
use cluster_turndown.Turndown.Time.{
  Time, Duration, minute, time_sub, duration_add, time_add, is_before, minutes_5,
}
use cluster_turndown.Turndown.Request.{
  turndown_job_type, turndown_job_repeat, type_scale_down, type_scale_up, repeat_none,
  single_schedule_err, validate_schedule, type_reset,
}
use cluster_turndown.Turndown.Schedule.{Schedule, ScheduleStore}
use cluster_turndown.Turndown.Jobs
use cluster_turndown.Turndown.Jobs.{JobScheduler}

-- The interface `TurndownManager` over a world `W`.
pub record TurndownManager (W : Type 0) : Type 0 where
  pub is_scaled_down : W → Bool
  pub is_running_on_turndown_node : W → Bool × Option Error
  pub prepare_turndown_environment : W → Option Error × W
  pub reset_turndown_environment : W → Option Error × W
  pub scale_down_cluster : W → Option Error × W
  pub scale_up_cluster : W → Option Error × W

-- The methods that serve as functions of jobs, and the nil function.
pub data JobFunc : Type 0 where
  scale_down_func scale_up_func reset_func nil_func : JobFunc

-- What the scheduler is made with.
pub record Parts (W : Type 0) : Type 0 where
  pub manager : TurndownManager W
  pub store : ScheduleStore W
  pub new_job_id : ℕ → String

pub record TurndownScheduler (W : Type 0) : Type 0 where
  pub scheduler : JobScheduler JobFunc
  pub schedule : Option Schedule
  pub last_type_completed : String
  pub world : W

-- The metadata of a job of a type that is repeated so.
abbrev pub job_metadata : String → String → GoMap String
job_metadata t r = some ((turndown_job_type, t) ∷ (turndown_job_repeat, r) ∷ [])

-- The identifier of `id, err := …`.
abbrev pub id_of : Result String → String
id_of (ok id) = id
id_of (err e) = ""

-- `downRepeat`, with its default.
repeat_or_none : GoMap String → String
repeat_or_none m = let r = get_text m turndown_job_repeat in if str_eq r "" then repeat_none else r

-- How far both times are moved when the one that comes next was missed.
pub missed : Time → Time → Duration
missed now t = if is_before t now then duration_add (time_sub now t) minute else pos 0

-- The times of the two jobs, which are moved together.
pub restored_times : Time → Schedule → Time × Time
unfolding missed
restored_times now s =
    let delta =
      missed now
        (if str_eq s.current type_scale_down then s.scale_down_time else s.scale_up_time) in
    (time_add s.scale_down_time delta, time_add s.scale_up_time delta)

-- `ts.scheduler.Cancel(id)`, with its result dropped.
pub cancel_job : {W : Type 0} → String → TurndownScheduler W → TurndownScheduler W
cancel_job id ts = record ts { scheduler = (Jobs.cancel id ts.scheduler).1 }

module _ {W : Type 0} (p : Parts W) where
  -- A call of `ts.scheduler.Schedule`.
  with_scheduler :
      {A : Type 0}
      → (JobScheduler JobFunc → A × JobScheduler JobFunc)
      → TurndownScheduler W
      → A × TurndownScheduler W
  with_scheduler f ts = let (a, s) = f ts.scheduler in (a, record ts { scheduler = s })

  plan_job :
      Time → JobFunc → GoMap String → TurndownScheduler W → Result String × TurndownScheduler W
  unfolding with_scheduler
  plan_job next f metadata = with_scheduler (Jobs.schedule p.new_job_id next f metadata)

  pub schedule_turndown :
      Time → Time → Time → String → TurndownScheduler W → Result Schedule × TurndownScheduler W
  schedule_turndown now from to repeat_type ts = elim (ts.schedule) [
    | some s ↦ (err single_schedule_err, ts)
    | none ↦
        let (failed, repeat_type') = validate_schedule now from to repeat_type in
        elim failed [
          | some e ↦ (err e, ts)
          | none ↦
              let scale_down_meta = job_metadata type_scale_down repeat_type' in
              let scale_up_meta = job_metadata type_scale_up repeat_type' in
              let (down, ts₁) = plan_job from scale_down_func scale_down_meta ts in
              elim down [
                | err e ↦ (err e, ts₁)
                | ok scale_down_id ↦
                    let (up, ts₂) = plan_job to scale_up_func scale_up_meta ts₁ in
                    let s : Schedule = record {
                      current = type_scale_down;
                      scale_down_id = scale_down_id;
                      scale_down_time = from;
                      scale_down_metadata = scale_down_meta;
                      scale_up_id = id_of up;
                      scale_up_time = to;
                      scale_up_metadata = scale_up_meta;
                    } in
                    (ok s, record ts₂ { schedule = some s; world = (p.store.create s ts₂.world).1 })
              ]
        ]
  ]

  pub clear_store : TurndownScheduler W → TurndownScheduler W
  clear_store ts = record ts { world = p.store.clear ts.world }

  plan_job_with_id :
      String
      → Time
      → JobFunc
      → GoMap String
      → TurndownScheduler W
      → Result String × TurndownScheduler W
  unfolding with_scheduler
  plan_job_with_id id next f metadata = with_scheduler (Jobs.schedule_with_id id next f metadata)

  -- The second half of `ScheduleTurndownBySchedule`, which knows the first job's identifier.
  schedule_up_again :
      Schedule → Time → String → TurndownScheduler W → Option Error × TurndownScheduler W
  unfolding plan_job_with_id cancel_job clear_store
  schedule_up_again s up_time scale_down_id ts =
      let (up, ts') = plan_job_with_id s.scale_up_id up_time scale_up_func s.scale_up_metadata ts in
      elim up [
        | err e ↦ (
          some e,
          clear_store (if str_eq scale_down_id "" then ts' else cancel_job scale_down_id ts'),
        )
        | ok id ↦ (none, record ts' { schedule = some s })
      ]

  pub schedule_turndown_by_schedule :
      Time → Schedule → TurndownScheduler W → Option Error × TurndownScheduler W
  unfolding restored_times repeat_or_none plan_job_with_id schedule_up_again clear_store
  schedule_turndown_by_schedule now s ts = elim (ts.schedule) [
    | some other ↦ (some single_schedule_err, ts)
    | none ↦
        let (down_time, up_time) = restored_times now s in
        if str_eq s.current type_scale_up
          && str_eq (repeat_or_none s.scale_down_metadata) repeat_none
        then schedule_up_again s up_time "" ts
        else (let (down, ts') =
              plan_job_with_id s.scale_down_id down_time scale_down_func s.scale_down_metadata ts in
            elim down [
              | err e ↦ (some e, clear_store ts')
              | ok id ↦ schedule_up_again s up_time id ts'
            ])
  ]

  -- `NewTurndownScheduler`, in a world in which the store may hold a schedule.
  pub new_turndown_scheduler : Time → W → TurndownScheduler W
  unfolding schedule_turndown_by_schedule
  new_turndown_scheduler now w =
      let ts : TurndownScheduler W = record {
        scheduler = Jobs.new_simple_scheduler;
        schedule = none;
        last_type_completed = "";
        world = w;
      } in
      elim (p.store.get_schedule w) [
        | err e ↦ ts
        | ok s ↦ (schedule_turndown_by_schedule now s ts).1
      ]

  pub schedule_reset : Time → TurndownScheduler W → TurndownScheduler W
  unfolding plan_job
  schedule_reset now ts =
      (plan_job (time_add now minutes_5) reset_func (job_metadata type_reset repeat_none) ts).1
