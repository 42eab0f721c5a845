-- ===== src/Turndown/Jobs/Routines/Late.antt =====
-- pkg/turndown/scheduler.go: a job that is cancelled when its timer has fired and its goroutine has not entered it
-- in the set of running ones.
use cluster_turndown.Prelude.{
  ℕ, zero, suc, String, ◌≡◌, refl, ◌∙◌, inl, inr, Bool, true, false, none, some, List, [], ◌∷◌,
  arith, eq_iff, Option-cases, lookup-insert_self, Entries, lookup,
}
use cluster_turndown.Turndown.Jobs.{
  Routine, JobScheduler, cancel, cancel_context, remove_job, is_running, fired, running, contains,
  add,
}
use cluster_turndown.Turndown.Jobs.Laws.{cancel-lookup, cancel-running}
use cluster_turndown.Turndown.Jobs.Routines.{routine_at, move_to, enter, Step, enters}

contains-add_self : (id : String) (ids : Entries Bool) → contains (add ids id) id ≡ true
contains-add_self id ids = ground (arith, lookup-insert_self id true ids)

module _ {F : Type 0} where
  -- The goroutine at a place of a list stands where another stood, with the same job.
  abbrev StandsAs : ℕ → List (Routine F) → Routine F → Type 0
  StandsAs n rs r =
      (q : Routine F) × (routine_at n rs ≡ some q)
      × (q.phase ≡ r.phase)
      × (q.simple_job ≡ r.simple_job)

  cancel_context-StandsAs :
      (m n : ℕ) (rs : List (Routine F)) (r : Routine F)
      → routine_at n rs ≡ some r
      → StandsAs n (cancel_context m rs) r
  unfolding routine_at cancel_context
  cancel_context-StandsAs m n [] r at = absurd (cc at)
  cancel_context-StandsAs zero zero (x ∷ rs) r at =
      (record x { is_cancelled = true }, refl, ground (arith, at), ground (arith, at))
  cancel_context-StandsAs zero (suc n) (x ∷ rs) r at = (r, at, refl, refl)
  cancel_context-StandsAs (suc m) zero (x ∷ rs) r at = (r, at, refl, refl)
  cancel_context-StandsAs (suc m) (suc n) (x ∷ rs) r at = cancel_context-StandsAs m n rs r at

  cancel-StandsAs :
      (id : String) (n : ℕ) (s : JobScheduler F) (r : Routine F)
      → routine_at n s.routines ≡ some r
      → StandsAs n (cancel id s).1.routines r
  unfolding cancel remove_job
  cancel-StandsAs id n s r at = elim (Option-cases (lookup id s.jobs)) [
    | inl gone ↦ simp (cancel, remove_job, gone) (r, at, refl, refl)
    | inr (j, there) ↦
        simp (cancel, remove_job, there) (cancel_context-StandsAs j.cancel n s.routines r at)
  ]

  -- When the timer of a goroutine's job has fired and the job is not in the set of running ones, a cancellation
  -- of the job leaves none of that name waiting and does not put it into the set; and yet the goroutine can
  -- take its next step, after which the job that was cancelled is running.
  pub is_running-cancel_fired :
      (n : ℕ) (s : JobScheduler F) (r : Routine F)
      → routine_at n s.routines ≡ some r
      → r.phase ≡ fired
      → is_running s r.simple_job.id ≡ false
      → let s' = (cancel r.simple_job.id s).1 in
        (lookup r.simple_job.id s'.jobs ≡ none)
        × (is_running s' r.simple_job.id ≡ false)
        × ((t : JobScheduler F) × Step s' t
            × (is_running t r.simple_job.id ≡ true)
            × (lookup r.simple_job.id t.jobs ≡ none))
  unfolding is_running move_to enter
  is_running-cancel_fired n s r at is_fired idle =
      let id = r.simple_job.id in
      let s' = (cancel id s).1 in
      let (q, at', phase, job) = cancel-StandsAs id n s r at in
      let gone : lookup id s'.jobs ≡ none = ground (arith, cancel-lookup id id s, eq_iff id id) in
      (
        gone,
        rw (cancel-running id s) idle,
        (
          enter q.simple_job.id (move_to running n s'),
          enters n q at' (phase ∙ is_fired),
          rw (job) (contains-add_self id s'.running_jobs),
          gone,
        ),
      )
