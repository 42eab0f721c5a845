-- ===== src/Examples/Planner.antt =====
-- A scheduler over a world that lists what was done, for the tests.
use cluster_turndown.Prelude.{
  String, true, false, none, some, List, [], ◌∷◌, ◌==◌, if◌then◌else◌, pos, error, err,
}
use cluster_turndown.Turndown.Time.{Time}
use cluster_turndown.Turndown.Schedule.{ScheduleStore}
use cluster_turndown.Turndown.Jobs
use cluster_turndown.Turndown.Scheduler.{Parts, TurndownManager, TurndownScheduler}

abbrev pub manager : TurndownManager (List String)
manager = record {
  is_scaled_down = λ w. false;
  is_running_on_turndown_node = λ w. (true, none);
  prepare_turndown_environment = λ w. (none, "prepare" ∷ w);
  reset_turndown_environment = λ w. (none, "reset" ∷ w);
  scale_down_cluster = λ w. (none, "down" ∷ w);
  scale_up_cluster = λ w. (none, "up" ∷ w);
}

abbrev pub store : ScheduleStore (List String)
store = record {
  get_schedule = λ w. err (error "No schedule exists");
  create = λ s w. (none, "create" ∷ w);
  update = λ s w. elim s [ none ↦ none | some t ↦ some (none, "update" ∷ w) ];
  complete = λ w. "complete" ∷ w;
  clear = λ w. "clear" ∷ w;
}

-- The first three identifiers are different.
abbrev pub parts : Parts (List String)
parts = record {
  manager = manager;
  store = store;
  new_job_id = λ n. if n == 0 then "id-0" else if n == 1 then "id-1" else "id-2";
}

abbrev pub empty_scheduler : TurndownScheduler (List String)
empty_scheduler = record {
  scheduler = Jobs.new_simple_scheduler;
  schedule = none;
  last_type_completed = "";
  world = [];
}

abbrev pub from_time : Time
from_time = pos 3_600_000_000_000

abbrev pub to_time : Time
to_time = pos 7_200_000_000_000
