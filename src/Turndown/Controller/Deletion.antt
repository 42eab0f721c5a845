-- ===== src/Turndown/Controller/Deletion.antt =====
-- What the controller does for a resource that is being deleted.
use cluster_turndown.Prelude.{
  String, ◌≡◌, refl, inr, true, false, some, arith, str_eq, eq_iff, Error, ok,
}
use cluster_turndown.Turndown.Time.{Time}
use cluster_turndown.Turndown.Schedule.{Schedule}
use cluster_turndown.Turndown.Store.{TurndownSchedule, schedule_state_success}
use cluster_turndown.Turndown.Scheduler.{Parts, TurndownScheduler}
use cluster_turndown.Turndown.Scheduler.Control.Cancelling.{in_progress, cancel_refuses}
use cluster_turndown.Turndown.Controller.{ResourceClient, is_schedule_of, try_cancel, handle}

module _ {W : Type 0} (p : Parts W) (c : ResourceClient W) where
  -- The deletion of the resource of the schedule is put off while one of its two jobs is running: an
  -- error is returned, by which its key is taken up again, and the finalizer, the schedule, both jobs and
  -- the cluster are left as they are.
  pub handle-deleted_running :
      (now : Time) (key name : String) (td : TurndownSchedule) (s : Schedule)
      (ts : TurndownScheduler W)
      → c.split_key key ≡ ok name
      → c.lister_get name ts.world ≡ ok td
      → td.is_deleted ≡ true
      → td.status.state ≡ schedule_state_success
      → ts.schedule ≡ some s
      → is_schedule_of td s ≡ true
      → in_progress p now false ts s ≡ true
      → (e : Error) × (handle p c now key ts ≡ (some e, ts))
  unfolding handle try_cancel
  handle-deleted_running now key name td s ts split found deleted done has same busy =
      let (e, refused) = cancel_refuses p now false ts (inr (s, has, busy, refl)) in
      let successful : str_eq td.status.state schedule_state_success ≡ true =
        ground (arith, done, eq_iff td.status.state schedule_state_success) in
      (e, simp (handle, try_cancel, split, found, deleted, successful, has, same, refused))
