-- ===== src/Turndown/Scheduler/Starting.antt =====
-- What a request for a schedule leads to, on every branch.
use cluster_turndown.Prelude.{
  ℕ, suc, String, ◌≡◌, refl, ap, ◌≢◌, ◌⊎◌, inl, inr, false, Option, none, some, List, [], ◌∷◌, ◌++◌,
  arith, Option-cases, length, length-append, lookup-insert_self, lookup-insert_under, GoMap,
  lookup, Error, ok, err,
}
use cluster_turndown.Turndown.Time.{Time}
use cluster_turndown.Turndown.Request.{
  fixup_repeat_type, single_schedule_err, type_scale_down, validate_schedule, type_scale_up,
}
use cluster_turndown.Turndown.Request.Exact.{
  IsValid, validate_schedule-eq_none, validate_schedule-repeat,
}
use cluster_turndown.Turndown.Schedule.{Schedule}
use cluster_turndown.Turndown.Jobs
use cluster_turndown.Turndown.Jobs.{JobScheduler, SimpleJob, Routine, waiting}
use cluster_turndown.Turndown.Scheduler.{
  plan_job, Parts, TurndownScheduler, JobFunc, schedule_turndown, job_metadata, scale_down_func,
  scale_up_func,
}

-- A waiting job at a time, with the function that it runs and its metadata.
pub record IsPlanned (s : JobScheduler JobFunc) (id : String) (next : Time) (f : JobFunc)
    (m : GoMap String) : Type 0 where
  pub at_time : Jobs.next_scheduled_time_for s id ≡ some next
  pub runs : (j : SimpleJob JobFunc) × (lookup id s.jobs ≡ some j) × (j.job ≡ f) × (j.metadata ≡ m)

-- A goroutine that is just started for a job, with the context of a number.
abbrev pub started : String → Time → JobFunc → GoMap String → ℕ → Routine JobFunc
started id next f m context = record {
  simple_job = record { id = id; next = next; job = f; cancel = context; metadata = m };
  is_cancelled = false;
  phase = waiting;
}

length-suc :
    (rs : List (Routine JobFunc)) (r : Routine JobFunc) → length (rs ++ r ∷ []) ≡ suc (length rs)
length-suc rs r = omega (arith, length-append rs (r ∷ []))

pub IsPlanned-of :
    (s : JobScheduler JobFunc) (id : String) (j : SimpleJob JobFunc)
    → lookup id s.jobs ≡ some j
    → IsPlanned s id j.next j.job j.metadata
unfolding Jobs.next_scheduled_time_for
IsPlanned-of s id j e = record {
  at_time = rw (e, Jobs.next_scheduled_time_for);
  runs = (j, e, refl, refl);
}

module _ {W : Type 0} (p : Parts W) (now from to : Time) (r : String)
    (ts : TurndownScheduler W) where
  -- A request is refused, and everything is left as it was, when there is a schedule already or the
  -- request is not valid.
  pub schedule_turndown_refuses :
      (ts.schedule ≢ none) ⊎ (¬ IsValid now from to (fixup_repeat_type r))
      → (e : Error) × (schedule_turndown p now from to r ts ≡ (err e, ts))
  unfolding schedule_turndown
  schedule_turndown_refuses h = elim (Option-cases ts.schedule) [
    | inr (s, e) ↦ (single_schedule_err, ground (arith, e))
    | inl e ↦ elim (Option-cases ((validate_schedule now from to r).0)) [
      | inr (x, f) ↦ (x, ground (arith, e, f))
      | inl f ↦ absurd (elim h [
        | inl some_schedule ↦ some_schedule e
        | inr invalid ↦ invalid ((validate_schedule-eq_none now from to r).0 f)
      ])
    ]
  ]

  abbrev down_id : String
  down_id = p.new_job_id ts.scheduler.ids_taken

  abbrev up_id : String
  up_id = p.new_job_id (suc ts.scheduler.ids_taken)

  -- The schedule of a valid request.
  abbrev pub requested : Schedule
  requested = record {
    current = type_scale_down;
    scale_down_id = down_id;
    scale_down_time = from;
    scale_down_metadata = job_metadata type_scale_down (fixup_repeat_type r);
    scale_up_id = up_id;
    scale_up_time = to;
    scale_up_metadata = job_metadata type_scale_up (fixup_repeat_type r);
  }

  -- A valid request that meets no schedule becomes the schedule, with two new identifiers: the store
  -- gets it, and the two jobs are planned for the two times. Their goroutines, which wait and are not cancelled,
  -- come behind those that were there, which are as they were.
  pub schedule_turndown_accepts :
      ts.schedule ≡ none
      → IsValid now from to (fixup_repeat_type r)
      → down_id ≢ up_id
      → let (result, ts') = schedule_turndown p now from to r ts in
        (result ≡ ok requested)
        × (ts'.schedule ≡ some requested)
        × IsPlanned ts'.scheduler down_id from scale_down_func requested.scale_down_metadata
        × IsPlanned ts'.scheduler up_id to scale_up_func requested.scale_up_metadata
        × (ts'.scheduler.routines
            ≡ (ts.scheduler.routines
                ++ started down_id from scale_down_func requested.scale_down_metadata
                    (length ts.scheduler.routines)
                  ∷ [])
              ++ started up_id to scale_up_func requested.scale_up_metadata
                  (suc (length ts.scheduler.routines))
                ∷ [])
        × (ts'.world ≡ (p.store.create requested ts.world).1)
        × (ts'.last_type_completed ≡ ts.last_type_completed)
  unfolding schedule_turndown plan_job Jobs.schedule
  schedule_turndown_accepts free valid apart =
      let v =
        validate_schedule-repeat now from to r
          ((validate_schedule-eq_none now from to r).1 valid) in
      let passed = ap (λ (x : Option Error × String). x.0) v in
      let fixed = ap (λ (x : Option Error × String). x.1) v in
      rw (free, schedule_turndown, passed, fixed)
        (
          refl,
          refl,
          IsPlanned-of _ down_id _ (lookup-insert_under down_id up_id _ _ ts.scheduler.jobs apart),
          IsPlanned-of _ up_id _ (lookup-insert_self up_id _ _),
          ap
              (λ (n : ℕ).
                (ts.scheduler.routines
                  ++ started down_id from scale_down_func requested.scale_down_metadata
                      (length ts.scheduler.routines)
                    ∷ [])
                ++ started up_id to scale_up_func requested.scale_up_metadata n ∷ [])
              (length-suc ts.scheduler.routines _),
          refl,
          refl,
        )
