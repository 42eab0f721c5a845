-- ===== src/Turndown/Jobs/Laws.antt =====
-- What the operations of the job scheduler do to the jobs that it knows and to their goroutines.
use cluster_turndown.Prelude.{
  String, ◌≡◌, refl, false, none, some, [], ◌∷◌, ◌++◌, arith, str_eq, eq_iff, if◌then◌else◌, length,
  GoMap, lookup, lookup-insert, lookup-without, ok,
}
use cluster_turndown.Turndown.Time.{Time}
use cluster_turndown.Turndown.Jobs.{SimpleJob, JobScheduler, schedule_with_id, cancel, waiting}

module _ {F : Type 0} where
  -- The job of this identifier, as `addJobWithID` makes it.
  abbrev pub made : JobScheduler F → String → Time → F → GoMap String → SimpleJob F
  made s id next f metadata = record {
    id = id;
    next = next;
    job = f;
    cancel = length s.routines;
    metadata = metadata;
  }

  -- A scheduled job is found under its identifier, which replaces a job of that name and no other; its
  -- goroutine waits, behind those that were there; the running jobs stay as they were.
  pub schedule_with_id_lem :
      (id : String) (next : Time) (f : F) (metadata : GoMap String) (s : JobScheduler F)
      → let (r, s') = schedule_with_id id next f metadata s in
        (r ≡ ok id)
        × ((k : String)
            → lookup k s'.jobs
              ≡ (if str_eq id k then some (made s id next f metadata) else lookup k s.jobs))
        × (s'.routines
            ≡ s.routines
              ++ record {
                simple_job = made s id next f metadata;
                is_cancelled = false;
                phase = waiting;
              }
                ∷ [])
        × (s'.running_jobs ≡ s.running_jobs)
        × (s'.ids_taken ≡ s.ids_taken)
  unfolding schedule_with_id
  schedule_with_id_lem id next f metadata s =
      (refl, λ k. lookup-insert id k (made s id next f metadata) s.jobs, refl, refl, refl)

  -- Cancelling takes the job of this identifier out, and no other.
  pub cancel-lookup :
      (id k : String) (s : JobScheduler F)
      → lookup k (cancel id s).1.jobs ≡ (if str_eq id k then none else lookup k s.jobs)
  unfolding cancel
  cancel-lookup id k s = ground (arith, eq_iff id k, lookup-without id k s.jobs)

  pub cancel-running :
      (id : String) (s : JobScheduler F) → (cancel id s).1.running_jobs ≡ s.running_jobs
  unfolding cancel
  cancel-running id s = ground arith

  pub cancel-ids_taken :
      (id : String) (s : JobScheduler F) → (cancel id s).1.ids_taken ≡ s.ids_taken
  unfolding cancel
  cancel-ids_taken id s = ground arith
