-- ===== src/Examples/Scheduling.antt =====
-- The theorems on the schedulers, at a small world: a list of what was done.
use cluster_turndown.Prelude.{
  ◌-◌, String, ◌≡◌, refl, ◌≢◌, ◌↔◌, inl, inr, true, false, Option, none, some, List, [], ◌∷◌, map,
  arith, eq_iff, if◌then◌else◌, pos, ◌+ℤ◌, ◌-ℤ◌, ◌≤ℤ◌, lookup, Error, ok, err,
}
use cluster_turndown.Strconv.{to_lower, equal_fold}
use cluster_turndown.Examples.Planner.{parts, from_time, to_time, empty_scheduler}
use cluster_turndown.Turndown.Time.{minute, max_duration, is_before, time_add, hours_24}
use cluster_turndown.Turndown.Request.{
  type_scale_up, fixup_repeat_type, validate_schedule, repeat_durations, type_scale_down,
}
use cluster_turndown.Turndown.Request.Exact.{IsValid, validate_schedule-eq_none}
use cluster_turndown.Turndown.Schedule.{Schedule}
use cluster_turndown.Turndown.Jobs
use cluster_turndown.Turndown.Scheduler.{
  TurndownScheduler, schedule_turndown, restored_times, job_metadata, scale_down_func,
  scale_up_func,
}
use cluster_turndown.Turndown.Scheduler.Starting.{
  IsPlanned, started, requested, schedule_turndown_refuses, schedule_turndown_accepts,
}
use cluster_turndown.Turndown.Scheduler.Restoring.{due, restored_times_lem}
use cluster_turndown.Turndown.Scheduler.Control.{cancel}
use cluster_turndown.Turndown.Scheduler.Control.Cancelling.{IsCancelled, cancel_lem}
use cluster_turndown.Turndown.Scheduler.Completion.{on_job_completed}
use cluster_turndown.Turndown.Scheduler.Completion.Cycle.{on_job_completed_cycle}
use cluster_turndown.Turndown.Store.{
  TurndownSchedule, ScheduleClient, schedule_state_success, update, get_schedule,
}
use cluster_turndown.Turndown.Controller.{ResourceClient, handle}
use cluster_turndown.Turndown.Controller.Deletion.{handle-deleted_running}
use cluster_turndown.Turndown.Store.RoundTrip.{
  returned, returned_status, replaced, ServesSchedules, get_schedule-update,
}

zero_not_one : parts.new_job_id 0 ≢ parts.new_job_id 1
zero_not_one e = ground (arith, e, eq_iff "id-0" "id-1")

zero_not_two : parts.new_job_id 0 ≢ parts.new_job_id 2
zero_not_two e = ground (arith, e, eq_iff "id-0" "id-2")

daily-IsValid : IsValid (pos 0) from_time to_time (fixup_repeat_type "daily")
unfolding ◌+ℤ◌ fixup_repeat_type to_lower
daily-IsValid = record {
  apart = omega arith;
  ahead = omega arith;
  ends = inr (inl (refl, omega arith));
}

validate_schedule-eq_none_example :
    ((validate_schedule (pos 0) from_time to_time "daily").0 ≡ none)
    ↔ IsValid (pos 0) from_time to_time (fixup_repeat_type "daily")
validate_schedule-eq_none_example = validate_schedule-eq_none (pos 0) from_time to_time "daily"

schedule_turndown_accepts_example :
    let (result, ts') = schedule_turndown parts (pos 0) from_time to_time "daily" empty_scheduler in
    let s = requested parts (pos 0) from_time to_time "daily" empty_scheduler in
    (result ≡ ok s)
    × (ts'.schedule ≡ some s)
    × IsPlanned ts'.scheduler "id-0" from_time scale_down_func s.scale_down_metadata
    × IsPlanned ts'.scheduler "id-1" to_time scale_up_func s.scale_up_metadata
    × (ts'.scheduler.routines
        ≡ started "id-0" from_time scale_down_func s.scale_down_metadata 0
          ∷ started "id-1" to_time scale_up_func s.scale_up_metadata 1
          ∷ [])
    × (ts'.world ≡ "create" ∷ [])
    × (ts'.last_type_completed ≡ "")
unfolding Jobs.new_simple_scheduler
schedule_turndown_accepts_example =
    schedule_turndown_accepts parts (pos 0) from_time to_time "daily" empty_scheduler refl
      daily-IsValid zero_not_one

abbrev planned : Schedule
planned = requested parts (pos 0) from_time to_time "daily" empty_scheduler

abbrev busy_scheduler : TurndownScheduler (List String)
busy_scheduler = record empty_scheduler {
  schedule = some planned;
  last_type_completed = "scaledown";
}

schedule_turndown_refuses_example :
    (e : Error) × (schedule_turndown parts (pos 0) from_time to_time "daily" busy_scheduler
      ≡ (err e, busy_scheduler))
schedule_turndown_refuses_example =
    schedule_turndown_refuses parts (pos 0) from_time to_time "daily" busy_scheduler
      (inl (λ e. ground (arith, e)))

cancel_lem_example :
    IsCancelled parts (pos 0) true busy_scheduler planned (cancel parts (pos 0) true busy_scheduler)
cancel_lem_example = cancel_lem parts (pos 0) true busy_scheduler planned refl (inr refl)

store_updates :
    (s : Schedule) (w : List String)
    → (r : Option Error × List String) × (parts.store.update (some s) w ≡ some r)
store_updates s w = ((none, "update" ∷ w), refl)

on_job_completed_cycle_example :
    let s = planned in
    let down_meta = job_metadata type_scale_down "daily" in
    let up_meta = job_metadata type_scale_up "daily" in
    (ts₁ ts₂ : TurndownScheduler (List String)) × (on_job_completed parts from_time from_time
        down_meta none busy_scheduler
      ≡ some ts₁)
    × (on_job_completed parts to_time to_time up_meta none ts₁ ≡ some ts₂)
    × (ts₂.schedule
        ≡ some (record {
          current = type_scale_down;
          scale_down_id = "id-0";
          scale_down_time = time_add from_time hours_24;
          scale_down_metadata = down_meta;
          scale_up_id = "id-2";
          scale_up_time = time_add to_time hours_24;
          scale_up_metadata = up_meta;
        }))
    × (ts₁.last_type_completed ≡ type_scale_down)
    × (ts₂.last_type_completed ≡ type_scale_up)
    × IsPlanned ts₂.scheduler "id-0" (time_add from_time hours_24) scale_down_func down_meta
    × IsPlanned ts₂.scheduler "id-2" (time_add to_time hours_24) scale_up_func up_meta
unfolding repeat_durations Jobs.new_simple_scheduler
on_job_completed_cycle_example =
    on_job_completed_cycle parts from_time to_time "daily" hours_24 planned busy_scheduler
      store_updates zero_not_one zero_not_two refl refl
      (λ e. ground (arith, e, eq_iff "daily" "none"))

in_time : pos 0 ≤ℤ due planned from_time to_time +ℤ pos (max_duration - 60_000_000_000)
unfolding ◌+ℤ◌
in_time = omega arith

restored_times_lem_example :
    let (down, up) = restored_times (pos 0) planned in
    (up -ℤ down ≡ to_time -ℤ from_time)
    × (due planned down up
        ≡ (if is_before from_time (pos 0) then time_add (pos 0) minute else from_time))
restored_times_lem_example = restored_times_lem (pos 0) planned in_time

abbrev pub resource : TurndownSchedule
resource = record {
  name = "nightly";
  start = from_time;
  end = to_time;
  repeat = "daily";
  is_deleted = false;
  finalizers = [];
  status = record {
    state = schedule_state_success;
    last_updated = pos 0;
    current = "";
    scale_down_id = "";
    scale_down_time = pos 0;
    scale_down_metadata = none;
    scale_up_id = "";
    scale_up_time = pos 0;
    scale_up_metadata = none;
  };
}

abbrev client_set : ScheduleClient (List TurndownSchedule)
client_set = record {
  list = λ w. ok w;
  update_status = λ td w.
      let new = record td { status = returned_status td.status } in (ok new, map (replaced new) w);
  now = λ w. pos 0;
}

client_set-ServesSchedules : ServesSchedules client_set (λ w. w)
client_set-ServesSchedules = record { lists = λ w. refl; updates = λ td w there. (refl, refl) }

get_schedule-update_example :
    (v : List TurndownSchedule) × (update client_set (some planned) (resource ∷ [])
      ≡ some (none, v))
    × (get_schedule client_set v ≡ ok (returned planned))
get_schedule-update_example =
    get_schedule-update client_set (λ w. w) client_set-ServesSchedules planned resource
      (resource ∷ []) refl

-- The resource of the running schedule, while it is being deleted.
abbrev deleted_resource : TurndownSchedule
deleted_resource = record resource {
  is_deleted = true;
  status = record resource.status {
    scale_down_id = planned.scale_down_id;
    scale_up_id = planned.scale_up_id;
  };
}

abbrev resource_client : ResourceClient (List String)
resource_client = record {
  split_key = λ key. ok key;
  lister_get = λ name w. ok deleted_resource;
  schedules = record {
    list = λ w. ok (deleted_resource ∷ []);
    update_status = λ td w. (ok td, "status" ∷ w);
    now = λ w. pos 0;
  };
  update = λ td w. (ok td, "update" ∷ w);
  delete = λ name w. "delete" ∷ w;
}

-- The scheduler whose first job is in the set of running ones.
abbrev running_scheduler : TurndownScheduler (List String)
running_scheduler = record busy_scheduler {
  scheduler = record {
    jobs = [];
    running_jobs = ("id-0", true) ∷ [];
    routines = [];
    ids_taken = 2;
  };
}

handle-deleted_running_example :
    (e : Error) × (handle parts resource_client (pos 0) "nightly" running_scheduler
      ≡ (some e, running_scheduler))
unfolding equal_fold Jobs.is_running lookup Jobs.new_simple_scheduler
handle-deleted_running_example =
    handle-deleted_running parts resource_client (pos 0) "nightly" "nightly" deleted_resource
      planned running_scheduler refl refl refl refl refl refl refl
