-- ===== src/Turndown/Jobs/Routines.antt =====
-- pkg/turndown/scheduler.go: the goroutines of the jobs, interleaved with each other and with the calls of
-- the scheduler's methods, those by the functions and the handler of jobs included.
pub mod Running
pub mod Exact
pub mod Late
use cluster_turndown.Prelude.{
  ℕ, zero, suc, String, ◌≡◌, ◌⊎◌, Bool, true, false, ◌||◌, Option, none, some, List, [], ◌∷◌,
  str_eq, GoMap, Error,
}
use cluster_turndown.Turndown.Time.{Time}
use cluster_turndown.Turndown.Jobs.{
  Routine, JobScheduler, Phase, add, remove, remove_job, schedule_with_id, cancel, waiting, fired,
  stopped, running, returned, completing, handled, dropped, ended,
}

module _ {F : Type 0} where
  unfoldable pub routine_at : ℕ → List (Routine F) → Option (Routine F)
  routine_at n [] = none
  routine_at zero (r ∷ rs) = some r
  routine_at (suc n) (r ∷ rs) = routine_at n rs

  unfoldable pub set_phase : Phase → ℕ → List (Routine F) → List (Routine F)
  set_phase phase n [] = []
  set_phase phase zero (r ∷ rs) = record r { phase = phase } ∷ rs
  set_phase phase (suc n) (r ∷ rs) = r ∷ set_phase phase n rs

  unfoldable pub move_to : Phase → ℕ → JobScheduler F → JobScheduler F
  unfolding set_phase
  move_to phase n s = record s { routines = set_phase phase n s.routines }

  -- `sjs.runningJobs.Add(job.id)`
  unfoldable pub enter : String → JobScheduler F → JobScheduler F
  enter id s = record s { running_jobs = add s.running_jobs id }

  -- `sjs.runningJobs.Remove(job.id)`
  unfoldable pub leave : String → JobScheduler F → JobScheduler F
  leave id s = record s { running_jobs = remove s.running_jobs id }

  unfoldable pub forget : String → JobScheduler F → JobScheduler F
  unfolding remove_job
  forget id s = (remove_job s id).1

  unfoldable pub has_routine : String → List (Routine F) → Bool
  has_routine id [] = false
  has_routine id (r ∷ rs) = str_eq r.simple_job.id id || has_routine id rs

-- What the goroutine at place n does next, where the data of its branch allow it. The timer's branch is
-- open at any time, since a context that is cancelled does not close it.
pub data Step {F : Type 0} : JobScheduler F → JobScheduler F → Type 0 where
  schedules :
      {s : JobScheduler F} (id : String) (next : Time) (f : F) (m : GoMap String)
      → has_routine id s.routines ≡ false
      → Step s (schedule_with_id id next f m s).1
  cancels : {s : JobScheduler F} (id : String) → Step s (cancel id s).1
  fires :
      {s : JobScheduler F} (n : ℕ) (r : Routine F)
      → routine_at n s.routines ≡ some r
      → r.phase ≡ waiting
      → Step s (move_to fired n s)
  stops :
      {s : JobScheduler F} (n : ℕ) (r : Routine F)
      → routine_at n s.routines ≡ some r
      → r.phase ≡ waiting
      → r.is_cancelled ≡ true
      → Step s (move_to stopped n s)
  enters :
      {s : JobScheduler F} (n : ℕ) (r : Routine F)
      → routine_at n s.routines ≡ some r
      → r.phase ≡ fired
      → Step s (enter r.simple_job.id (move_to running n s))
  returns :
      {s : JobScheduler F} (n : ℕ) (r : Routine F) (failed : Option Error)
      → routine_at n s.routines ≡ some r
      → r.phase ≡ running
      → Step s (move_to (returned failed) n s)
  removes :
      {s : JobScheduler F} (n : ℕ) (r : Routine F) (failed : Option Error)
      → routine_at n s.routines ≡ some r
      → r.phase ≡ returned failed
      → Step s (forget r.simple_job.id (move_to (completing failed) n s))
  drops :
      {s : JobScheduler F} (n : ℕ) (r : Routine F)
      → routine_at n s.routines ≡ some r
      → r.phase ≡ stopped
      → Step s (forget r.simple_job.id (move_to dropped n s))
  handles :
      {s : JobScheduler F} (n : ℕ) (r : Routine F) (failed : Option Error)
      → routine_at n s.routines ≡ some r
      → r.phase ≡ completing failed
      → Step s (move_to handled n s)
  leaves :
      {s : JobScheduler F} (n : ℕ) (r : Routine F)
      → routine_at n s.routines ≡ some r
      → (r.phase ≡ handled) ⊎ (r.phase ≡ dropped)
      → Step s (leave r.simple_job.id (move_to ended n s))

pub data Reach {F : Type 0} (s : JobScheduler F) : JobScheduler F → Type 0 where
  at_start : Reach s s
  one_more : {t u : JobScheduler F} → Reach s t → Step t u → Reach s u
