-- ===== src/Turndown/Scheduler/Completion/Cycle.antt =====
-- What the end of a job leads to: what is left of the schedule, and the next run of the job.
use cluster_turndown.Prelude.{
  suc, String, ◌≡◌, refl, ap, ◌∙◌, ◌≢◌, ◌⊎◌, inl, inr, false, Option, none, some, arith, str_eq,
  eq_iff, if◌then◌else◌, lookup-insert_self, GoMap, lookup, insert, lookup-insert, Error,
}
use cluster_turndown.Turndown.Time.{Time, Duration, time_add}
use cluster_turndown.Turndown.Request.{
  type_scale_down, repeat_none, repeat_durations, type_scale_up,
}
use cluster_turndown.Turndown.Schedule.{Schedule}
use cluster_turndown.Turndown.Jobs
use cluster_turndown.Turndown.Jobs.{SimpleJob}
use cluster_turndown.Turndown.Jobs.Laws.{made}
use cluster_turndown.Turndown.Scheduler.{
  Parts, TurndownScheduler, job_metadata, scale_down_func, plan_job, id_of, JobFunc, schedule_reset,
  scale_up_func, reset_func,
}
use cluster_turndown.Turndown.Scheduler.Starting.{IsPlanned, IsPlanned-of}
use cluster_turndown.Turndown.Scheduler.Completion.{
  on_job_completed, flipped, completed_again, update_store, job_func, is_ignored,
}

module _ {W : Type 0} (p : Parts W) where
  -- A store that does not panic when it is updated by a schedule.
  abbrev pub Updates : Type 0
  Updates = (s : Schedule) (w : W) → (r : Option Error × W) × (p.store.update (some s) w ≡ some r)

  -- The state in which a job of a schedule is planned again after the period, with the next identifier:
  -- the schedule takes over the identifier and the time.
  abbrev replanned :
      String → Time → GoMap String → Schedule → Duration → TurndownScheduler W → TurndownScheduler W
  replanned t at_time m s d ts =
      let (id, ts') = plan_job p (time_add at_time d) (job_func p t) m ts in
      record ts' { schedule = some (flipped p t (id_of id) (time_add at_time d) m s) }

  -- Saving the schedule keeps the rest.
  abbrev IsSaved : TurndownScheduler W → Option (TurndownScheduler W) → Type 0
  IsSaved ts r = (w : W) × (r ≡ some (record ts { world = w }))

  again :
      (t repeat : String) (at_time : Time) (m : GoMap String) (s : Schedule) (d : Duration)
      (ts : TurndownScheduler W)
      → Updates
      → ts.schedule ≡ some s
      → repeat_durations repeat ≡ some d
      → IsSaved (replanned t at_time m s d ts) (completed_again p t repeat at_time m ts)
  unfolding completed_again update_store plan_job Jobs.schedule
  again t repeat at_time m s d ts up e f =
      let (r, g) =
        up (flipped p t (p.new_job_id ts.scheduler.ids_taken) (time_add at_time d) m s) ts.world in
      (r.1, simp (completed_again, update_store, e, f, g))

  -- The state before a job that ended well is looked at: an up job has the environment reset.
  abbrev noted : Time → String → TurndownScheduler W → TurndownScheduler W
  noted now t ts =
      let ts' = record ts { last_type_completed = t } in
      if str_eq t type_scale_up then schedule_reset p now ts' else ts'

  on_job_completed-again :
      (now at_time : Time) (t repeat : String) (ts : TurndownScheduler W)
      → repeat ≢ repeat_none
      → (t ≡ type_scale_down) ⊎ (t ≡ type_scale_up)
      → let m = job_metadata t repeat in
        on_job_completed p now at_time m none ts
        ≡ completed_again p t repeat at_time m (noted now t ts)
  unfolding on_job_completed is_ignored lookup
  on_job_completed-again now at_time t repeat ts n h =
      let repeats : str_eq repeat repeat_none ≡ false =
        ground (arith, n, eq_iff repeat repeat_none) in
      elim h [
        | inl down ↦ rw (down, on_job_completed, repeats) refl
        | inr up ↦ rw (up, on_job_completed, repeats) refl
      ]

  job_kept :
      (id : String) (next next' : Time) (f g : JobFunc) (m m' : GoMap String)
      (ts : TurndownScheduler W)
      → id ≢ p.new_job_id ts.scheduler.ids_taken
      → IsPlanned ts.scheduler id next f m
      → IsPlanned (plan_job p next' g m' ts).1.scheduler id next f m
  unfolding plan_job Jobs.schedule Jobs.next_scheduled_time_for
  job_kept id next next' f g m m' ts n planned =
      let new_id = p.new_job_id ts.scheduler.ids_taken in
      let made_job = made ts.scheduler new_id next' g m' in
      let kept : lookup id (insert new_id made_job ts.scheduler.jobs)
          ≡ lookup id ts.scheduler.jobs =
        ground (arith, n, eq_iff new_id id, lookup-insert new_id id made_job ts.scheduler.jobs) in
      let (j, e, f', m'') = planned.runs in
      record {
        at_time =
            ap (λ (o : Option (SimpleJob JobFunc)). elim o [ none ↦ none | some j ↦ some j.next ])
              kept
            ∙ planned.at_time;
        runs = (j, kept ∙ e, f', m'');
      }

  -- A schedule that is repeated, once its down job and then its up job have ended well at their times:
  -- both jobs are planned again, each a period later under a new identifier, the schedule says so, and
  -- the next one is the down job.
  pub on_job_completed_cycle :
      (now₁ now₂ : Time) (repeat : String) (d : Duration) (s : Schedule) (ts : TurndownScheduler W)
      → Updates
      → p.new_job_id ts.scheduler.ids_taken ≢ p.new_job_id (suc ts.scheduler.ids_taken)
      → p.new_job_id ts.scheduler.ids_taken ≢ p.new_job_id (suc (suc ts.scheduler.ids_taken))
      → ts.schedule ≡ some s
      → repeat_durations repeat ≡ some d
      → repeat ≢ repeat_none
      → let down = time_add s.scale_down_time d in
        let up = time_add s.scale_up_time d in
        let down_meta = job_metadata type_scale_down repeat in
        let up_meta = job_metadata type_scale_up repeat in
        let down_id = p.new_job_id ts.scheduler.ids_taken in
        let up_id = p.new_job_id (suc (suc ts.scheduler.ids_taken)) in
        (ts₁ ts₂ : TurndownScheduler W) × (on_job_completed p now₁ s.scale_down_time down_meta none
            ts
          ≡ some ts₁)
        × (on_job_completed p now₂ s.scale_up_time up_meta none ts₁ ≡ some ts₂)
        × (ts₂.schedule
            ≡ some (record {
              current = type_scale_down;
              scale_down_id = down_id;
              scale_down_time = down;
              scale_down_metadata = down_meta;
              scale_up_id = up_id;
              scale_up_time = up;
              scale_up_metadata = up_meta;
            }))
        × (ts₁.last_type_completed ≡ type_scale_down)
        × (ts₂.last_type_completed ≡ type_scale_up)
        × IsPlanned ts₂.scheduler down_id down scale_down_func down_meta
        × IsPlanned ts₂.scheduler up_id up scale_up_func up_meta
  unfolding plan_job Jobs.schedule schedule_reset flipped job_func
  on_job_completed_cycle now₁ now₂ repeat d s ts ups apart₁ apart₂ e f n =
      let down_meta = job_metadata type_scale_down repeat in
      let up_meta = job_metadata type_scale_up repeat in
      let down_id = p.new_job_id ts.scheduler.ids_taken in
      let (w₁, g₁) =
        again type_scale_down repeat s.scale_down_time down_meta s d (noted now₁ type_scale_down ts)
          ups e f in
      let mid =
        replanned type_scale_down s.scale_down_time down_meta s d (noted now₁ type_scale_down ts) in
      let ts₁ = record mid { world = w₁ } in
      let s₁ =
        flipped p type_scale_down (p.new_job_id ts.scheduler.ids_taken)
          (time_add s.scale_down_time d) down_meta s in
      let late = noted now₂ type_scale_up ts₁ in
      let (w₂, g₂) = again type_scale_up repeat s.scale_up_time up_meta s₁ d late ups refl f in
      let ts₂ = record (replanned type_scale_up s.scale_up_time up_meta s₁ d late) { world = w₂ } in
      (
        ts₁,
        ts₂,
        on_job_completed-again now₁ s.scale_down_time type_scale_down repeat ts n (inl refl) ∙ g₁,
        on_job_completed-again now₂ s.scale_up_time type_scale_up repeat ts₁ n (inr refl) ∙ g₂,
        refl,
        refl,
        refl,
        job_kept down_id _ _ scale_down_func scale_up_func down_meta up_meta late apart₂ (
            job_kept down_id _ _ scale_down_func reset_func down_meta _ ts₁ apart₁
              (IsPlanned-of _ down_id _ (lookup-insert_self down_id _ _))),
        IsPlanned-of _ _ _ (lookup-insert_self _ _ _),
      )
