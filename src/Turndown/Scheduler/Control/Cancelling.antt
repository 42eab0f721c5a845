-- ===== src/Turndown/Scheduler/Control/Cancelling.antt =====
-- What a cancellation leads to, on every branch.
use cluster_turndown.Prelude.{
  String, ◌≡◌, refl, sym, ◌∙◌, subst, ◌≢◌, ◌⊎◌, inl, inr, Bool, true, false, ◌||◌, Option, none,
  some, arith, str_eq, eq_iff, Bool-cases, lookup-insert_self, lookup, Error,
}
use cluster_turndown.Turndown.Time.{Time, minutes_5, time_add}
use cluster_turndown.Turndown.Request.{
  type_scale_down, no_schedules_to_cancel_err, cancel_while_running_err,
}
use cluster_turndown.Turndown.Schedule.{Schedule}
use cluster_turndown.Turndown.Jobs
use cluster_turndown.Turndown.Jobs.Laws.{cancel-lookup, cancel-running, cancel-ids_taken}
use cluster_turndown.Turndown.Scheduler.{
  Parts, TurndownScheduler, cancel_job, clear_store, schedule_reset, plan_job,
}
use cluster_turndown.Turndown.Scheduler.Control.{cancel, scale_up_after_cancel}

module _ {W : Type 0} (p : Parts W) (now : Time) (force : Bool) (ts : TurndownScheduler W) where
  -- One of the two jobs of the schedule is in the set of running ones.
  abbrev pub in_progress : Schedule → Bool
  in_progress s =
      Jobs.is_running ts.scheduler s.scale_down_id || Jobs.is_running ts.scheduler s.scale_up_id

  -- Nothing is done, and an error is returned, when there is no schedule, or when one of its two jobs
  -- is running and the cancellation is not forced.
  pub cancel_refuses :
      (ts.schedule ≡ none)
        ⊎ ((s : Schedule) × (ts.schedule ≡ some s) × (in_progress s ≡ true) × (force ≡ false))
      → (e : Error) × (cancel p now force ts ≡ (some e, ts))
  unfolding cancel
  cancel_refuses h = elim h [
    | inl e ↦ (no_schedules_to_cancel_err, ground (arith, e))
    | inr (s, e, busy, gentle) ↦ (cancel_while_running_err, ground (arith, e, busy, gentle))
  ]

  -- The state that a cancellation leaves before the cluster is scaled up again.
  abbrev pub without_jobs : Schedule → TurndownScheduler W
  without_jobs s = record ts {
    scheduler = (Jobs.cancel s.scale_up_id (Jobs.cancel s.scale_down_id ts.scheduler).1).1;
    schedule = none;
    world = p.store.clear ts.world;
  }

  -- Where it goes on, it returns no error.
  pub cancel_proceeds :
      (s : Schedule)
      → ts.schedule ≡ some s
      → (in_progress s ≡ false) ⊎ (force ≡ true)
      → cancel p now force ts ≡ (none, scale_up_after_cancel p now (without_jobs s))
  unfolding cancel cancel_job clear_store
  cancel_proceeds s e h = elim h [
    | inl idle ↦ elim (Bool-cases force) [
      | inl f ↦ rw (e, cancel, f) refl
      | inr f ↦ rw (e, cancel, f, idle) refl
    ]
    | inr forced ↦ rw (e, cancel, forced) refl
  ]

  without_jobs-lookup :
      (s : Schedule) (id : String)
      → (s.scale_down_id ≡ id) ⊎ (s.scale_up_id ≡ id)
      → lookup id (without_jobs s).scheduler.jobs ≡ none
  without_jobs-lookup s id h =
      let between = (Jobs.cancel s.scale_down_id ts.scheduler).1 in
      ground (
        arith,
        h,
        eq_iff s.scale_up_id id,
        eq_iff s.scale_down_id id,
        cancel-lookup s.scale_up_id id between,
        cancel-lookup s.scale_down_id id ts.scheduler,
      )

  without_jobs-running :
      (s : Schedule) → (without_jobs s).scheduler.running_jobs ≡ ts.scheduler.running_jobs
  without_jobs-running s =
      cancel-running s.scale_up_id _ ∙ cancel-running s.scale_down_id ts.scheduler

  without_jobs-ids_taken :
      (s : Schedule) → (without_jobs s).scheduler.ids_taken ≡ ts.scheduler.ids_taken
  without_jobs-ids_taken s =
      cancel-ids_taken s.scale_up_id _ ∙ cancel-ids_taken s.scale_down_id ts.scheduler

  -- What a cancellation that goes on is to leave.
  pub record IsCancelled (s : Schedule) (r : Option Error × TurndownScheduler W) : Type 0 where
    pub no_error : r.0 ≡ none
    pub no_schedule : r.1.schedule ≡ none
    pub same_running : r.1.scheduler.running_jobs ≡ ts.scheduler.running_jobs
    pub scaled_up_or_idle :
        ((ts.last_type_completed ≡ type_scale_down)
          × (r.1.world ≡ (p.manager.scale_up_cluster (p.store.clear ts.world)).1)
          × (Jobs.next_scheduled_time_for r.1.scheduler (p.new_job_id ts.scheduler.ids_taken)
              ≡ some (time_add now minutes_5)))
        ⊎ ((ts.last_type_completed ≢ type_scale_down)
            × (r.1.world ≡ p.store.clear ts.world)
            × (lookup s.scale_down_id r.1.scheduler.jobs ≡ none)
            × (lookup s.scale_up_id r.1.scheduler.jobs ≡ none))

  after_cancelling :
      (s : Schedule) → IsCancelled s (none, scale_up_after_cancel p now (without_jobs s))
  unfolding scale_up_after_cancel schedule_reset plan_job Jobs.schedule Jobs.next_scheduled_time_for
  after_cancelling s = elim (Bool-cases (str_eq ts.last_type_completed type_scale_down)) [
    | inl down ↦ rw (down) (record {
      no_error = refl;
      no_schedule = refl;
      same_running = without_jobs-running s;
      scaled_up_or_idle = inl (
        ground (arith, down, eq_iff ts.last_type_completed type_scale_down),
        refl,
        rw (without_jobs-ids_taken s, Jobs.next_scheduled_time_for, lookup-insert_self) refl,
      );
    })
    | inr up ↦ rw (up) (record {
      no_error = refl;
      no_schedule = refl;
      same_running = without_jobs-running s;
      scaled_up_or_idle = inr (
        λ e. ground (arith, up, e, eq_iff ts.last_type_completed type_scale_down),
        refl,
        without_jobs-lookup s s.scale_down_id (inl refl),
        without_jobs-lookup s s.scale_up_id (inr refl),
      );
    })
  ]

  -- A cancellation that goes on forgets the schedule and clears the store. When the last job that was
  -- completed scaled the cluster down, it is scaled up at once and a job of a new identifier resets the
  -- environment five minutes from now; otherwise nothing else is done, and both jobs are gone.
  pub cancel_lem :
      (s : Schedule)
      → ts.schedule ≡ some s
      → (in_progress s ≡ false) ⊎ (force ≡ true)
      → IsCancelled s (cancel p now force ts)
  cancel_lem s e h = subst (IsCancelled s) (sym (cancel_proceeds s e h)) (after_cancelling s)
