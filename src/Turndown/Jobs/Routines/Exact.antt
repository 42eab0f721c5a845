-- ===== src/Turndown/Jobs/Routines/Exact.antt =====
-- The set of running jobs and the goroutines, at any point of any interleaving.
use cluster_turndown.Prelude.{
  ℕ, String, ◌≡◌, refl, sym, ◌∙◌, inl, inr, Bool, true, false, some, arith, str_eq, eq_iff,
  if◌then◌else◌, Option-cases, Entries, GoMap, lookup, lookup-insert, lookup-without,
}
use cluster_turndown.Turndown.Jobs.{
  fired, stopped, running, returned, completing, handled, dropped, ended, Routine, JobScheduler,
  Phase, contains, add, remove, remove_job, schedule_with_id, cancel, is_running, Time,
  new_simple_scheduler,
}
use cluster_turndown.Turndown.Jobs.Routines.{
  routine_at, move_to, enter, leave, forget, has_routine, Step, Reach, schedules, cancels, fires,
  stops, enters, returns, removes, drops, handles, leaves, at_start, one_more,
}
use cluster_turndown.Turndown.Jobs.Routines.Running.{
  is_entered, has_entered, Unique, Unique-set_phase, has_entered-set_phase, has_entered_kept,
  has_entered-append, Unique-append, Unique-cancel_context, has_entered-cancel_context,
}

contains-add :
    (m : Entries Bool) (j k : String)
    → contains (add m j) k ≡ (if str_eq j k then true else contains m k)
contains-add m j k = ground (arith, lookup-insert j k true m, eq_iff j k)

contains-remove :
    (m : Entries Bool) (j k : String)
    → contains (remove m j) k ≡ (if str_eq j k then false else contains m k)
contains-remove m j k = ground (arith, lookup-without j k m, eq_iff j k)

module _ {F : Type 0} where
  -- No two goroutines have one identifier, and the set has those between its two changes.
  pub record IsExact (s : JobScheduler F) : Type 0 where
    pub unique : Unique s.routines
    pub exact : (id : String) → is_running s id ≡ has_entered id s.routines

  module _ (s : JobScheduler F) (n : ℕ) (r : Routine F) (at : routine_at n s.routines ≡ some r)
      (x : IsExact s) where
    -- A move that does not cross a change of the set.
    move_to-IsExact :
        (phase : Phase) → is_entered phase ≡ is_entered r.phase → IsExact (move_to phase n s)
    unfolding move_to is_running
    move_to-IsExact phase same = record {
      unique = Unique-set_phase phase n s.routines x.unique;
      exact = λ id. x.exact id ∙ sym (has_entered_kept phase n s.routines r x.unique at same id);
    }

    enter-IsExact :
        (phase : Phase)
        → is_entered phase ≡ true
        → IsExact (enter r.simple_job.id (move_to phase n s))
    unfolding move_to enter is_running
    enter-IsExact phase e = record {
      unique = Unique-set_phase phase n s.routines x.unique;
      exact = λ id. ground (
        arith,
        e,
        x.exact id,
        contains-add s.running_jobs r.simple_job.id id,
        has_entered-set_phase id phase n s.routines r x.unique at,
      );
    }

    leave-IsExact :
        (phase : Phase)
        → is_entered phase ≡ false
        → IsExact (leave r.simple_job.id (move_to phase n s))
    unfolding move_to leave is_running
    leave-IsExact phase e = record {
      unique = Unique-set_phase phase n s.routines x.unique;
      exact = λ id. ground (
        arith,
        e,
        x.exact id,
        contains-remove s.running_jobs r.simple_job.id id,
        has_entered-set_phase id phase n s.routines r x.unique at,
      );
    }

  forget-IsExact : (id : String) (s : JobScheduler F) → IsExact s → IsExact (forget id s)
  unfolding forget remove_job is_running
  forget-IsExact id s x = elim (Option-cases (lookup id s.jobs)) [
    | inl missing ↦ rw (missing, forget, remove_job) x
    | inr (j, known) ↦
        rw (known, forget, remove_job) (record { unique = x.unique; exact = x.exact })
  ]

  cancel-IsExact : (id : String) (s : JobScheduler F) → IsExact s → IsExact (cancel id s).1
  unfolding cancel remove_job is_running forget
  cancel-IsExact id s x =
      let y = forget-IsExact id s x in
      elim (Option-cases (lookup id s.jobs)) [
        | inl missing ↦ rw (missing, cancel, remove_job) y
        | inr (j, known) ↦
            rw (known, cancel, remove_job)
              (record {
                unique = Unique-cancel_context j.cancel _ y.unique;
                exact = λ k. y.exact k ∙ sym (has_entered-cancel_context k j.cancel _);
              })
      ]

  schedule_with_id-IsExact :
      (id : String) (due : Time) (f : F) (m : GoMap String) (s : JobScheduler F)
      → has_routine id s.routines ≡ false
      → IsExact s
      → IsExact (schedule_with_id id due f m s).1
  unfolding schedule_with_id is_running
  schedule_with_id-IsExact id due f m s fresh x = record {
    unique = Unique-append s.routines _ fresh x.unique;
    exact = λ k. x.exact k ∙ sym (has_entered-append k s.routines _ refl);
  }

  Step-IsExact : {s t : JobScheduler F} → Step s t → IsExact s → IsExact t
  Step-IsExact (schedules id due f m fresh) x = schedule_with_id-IsExact id due f m _ fresh x
  Step-IsExact (cancels id) x = cancel-IsExact id _ x
  Step-IsExact (fires n r at was) x = move_to-IsExact _ n r at x fired (rw was refl)
  Step-IsExact (stops n r at was by) x = move_to-IsExact _ n r at x stopped (rw was refl)
  Step-IsExact (enters n r at was) x = enter-IsExact _ n r at x running refl
  Step-IsExact (returns n r failed at was) x =
      move_to-IsExact _ n r at x (returned failed) (rw was refl)
  Step-IsExact (removes n r failed at was) x =
      forget-IsExact _ _ (move_to-IsExact _ n r at x (completing failed) (rw was refl))
  Step-IsExact (drops n r at was) x =
      forget-IsExact _ _ (move_to-IsExact _ n r at x dropped (rw was refl))
  Step-IsExact (handles n r failed at was) x = move_to-IsExact _ n r at x handled (rw was refl)
  Step-IsExact (leaves n r at was) x = leave-IsExact _ n r at x ended refl

  Reach-IsExact : {s t : JobScheduler F} → IsExact s → Reach s t → IsExact t
  Reach-IsExact x at_start = x
  Reach-IsExact x (one_more before step) = Step-IsExact step (Reach-IsExact x before)

  -- Whatever the order in which goroutines move and jobs are scheduled and cancelled, with a new identifier
  -- for each job, from a new scheduler on: a job is reported as running exactly when a goroutine of its
  -- identifier has entered it and not yet left.
  pub is_running-Reach :
      (s : JobScheduler F)
      → Reach new_simple_scheduler s
      → (id : String) → is_running s id ≡ has_entered id s.routines
  unfolding Unique new_simple_scheduler has_entered is_running lookup
  is_running-Reach s path = (Reach-IsExact new_IsExact path).exact
    where
      new_IsExact : IsExact new_simple_scheduler
      new_IsExact = record { unique = tt; exact = λ id. refl }
