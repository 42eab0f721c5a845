-- ===== src/Turndown/Jobs.antt =====
-- pkg/turndown/scheduler.go: jobs that run once at a time, each in a goroutine of its own. Time is an
-- argument; identifiers come from `uuid.New`, which is a parameter: the n-th call gives `new_job_id n`.
pub mod Laws
pub mod Routines
use cluster_turndown.Prelude.{
  ℕ, zero, suc, String, Bool, true, false, Option, none, some, List, [], ◌∷◌, ◌++◌, length, Entries,
  GoMap, lookup, insert, without, Error, Result, ok,
}
use cluster_turndown.Turndown.Time.{Time}

-- `F` stands for the functions that jobs run. `cancel` cancels the context with this number.
pub record SimpleJob (F : Type 0) : Type 0 where
  pub id : String
  pub next : Time
  pub job : F
  pub cancel : ℕ
  pub metadata : GoMap String

-- Where the goroutine of a job stands: in the `select`; behind it, with the timer's branch taken or that
-- of the context; with the job entered in the set of running ones; with its function returned; in the
-- deferred function with the job removed, before or behind the handler's call; and at its end.
pub data Phase : Type 0 where
  waiting fired stopped running : Phase
  returned : Option Error → Phase
  completing : Option Error → Phase
  handled dropped ended : Phase

pub record Routine (F : Type 0) : Type 0 where
  pub simple_job : SimpleJob F
  pub is_cancelled : Bool
  pub phase : Phase

-- The goroutine of context number n stands at place n of `routines`.
pub record JobScheduler (F : Type 0) : Type 0 where
  pub jobs : Entries (SimpleJob F)
  pub running_jobs : Entries Bool
  pub routines : List (Routine F)
  pub ids_taken : ℕ

-- pkg/async/asyncset.go
abbrev pub contains : Entries Bool → String → Bool
contains s v = elim (lookup v s) [ none ↦ false | some b ↦ b ]

abbrev pub add : Entries Bool → String → Entries Bool
add s v = insert v true s

abbrev pub remove : Entries Bool → String → Entries Bool
remove s v = without v s

module _ {F : Type 0} where
  unfoldable pub new_simple_scheduler : JobScheduler F
  new_simple_scheduler = record { jobs = []; running_jobs = []; routines = []; ids_taken = 0 }

  -- The job under construction, with the number of the context made for it.
  pub add_job_with_id :
      JobScheduler F → String → Time → F → GoMap String → SimpleJob F × JobScheduler F
  add_job_with_id s id next f metadata =
      let j : SimpleJob F = record {
        id = id;
        next = next;
        job = f;
        cancel = length s.routines;
        metadata = metadata;
      } in
      (j, record s { jobs = insert id j s.jobs })

  unfoldable pub remove_job : JobScheduler F → String → Option (SimpleJob F) × JobScheduler F
  remove_job s id = elim (lookup id s.jobs) [
    | none ↦ (none, s)
    | some j ↦ (some j, record s { jobs = without id s.jobs })
  ]

  -- `go func() { … }`
  pub schedule_job : JobScheduler F → SimpleJob F → JobScheduler F
  schedule_job s j = record s {
    routines = s.routines ++ record { simple_job = j; is_cancelled = false; phase = waiting } ∷ [];
  }

  -- `ScheduleWithID`, which never returns an error.
  unfoldable pub schedule_with_id :
      String → Time → F → GoMap String → JobScheduler F → Result String × JobScheduler F
  unfolding add_job_with_id schedule_job
  schedule_with_id id next f metadata s =
      let (j, s') = add_job_with_id s id next f metadata in (ok j.id, schedule_job s' j)

  -- `Schedule`, with a new identifier.
  unfoldable pub schedule :
      (ℕ → String) → Time → F → GoMap String → JobScheduler F → Result String × JobScheduler F
  unfolding schedule_with_id
  schedule new_job_id next f metadata s =
      schedule_with_id (new_job_id s.ids_taken) next f metadata
        (record s { ids_taken = suc s.ids_taken })

  -- Cancelling context n marks the goroutine that selects on it.
  unfoldable pub cancel_context : ℕ → List (Routine F) → List (Routine F)
  cancel_context n [] = []
  cancel_context zero (r ∷ rs) = record r { is_cancelled = true } ∷ rs
  cancel_context (suc n) (r ∷ rs) = r ∷ cancel_context n rs

  unfoldable pub cancel : String → JobScheduler F → Bool × JobScheduler F
  unfolding remove_job cancel_context
  cancel id s =
      let (removed, s') = remove_job s id in
      elim removed [
        | none ↦ (false, s')
        | some j ↦ (true, record s' { routines = cancel_context j.cancel s'.routines })
      ]

  unfoldable pub next_scheduled_time_for : JobScheduler F → String → Option Time
  next_scheduled_time_for s id = elim (lookup id s.jobs) [ none ↦ none | some j ↦ some j.next ]

  unfoldable pub is_running : JobScheduler F → String → Bool
  is_running s id = contains s.running_jobs id
