-- ===== src/Turndown/Controller/Worker.antt =====
-- pkg/turndown/schedulecontroller.go: the workers of the controller, the keys that changes put into the work
-- queue, and the loop that prunes. The queue of client-go is a parameter, of which an item need not be a
-- string; a call that blocks is one that returns later. Workers take turns item by item.
pub mod Retries
use cluster_turndown.Prelude.{
  String, Bool, true, false, Option, none, some, List, [], ◌∷◌, if◌then◌else◌, pos, Error, error,
  Result, ok, err,
}
use cluster_turndown.Turndown.Time.{Time, Duration}
use cluster_turndown.Turndown.Scheduler.{Parts, TurndownScheduler}
use cluster_turndown.Turndown.Controller.{ResourceClient, handle, clear_completed_schedules}

-- `workqueue.RateLimitingInterface`; `get` answers nothing once the queue was shut down.
pub record WorkQueue (Q : Type 0) : Type 1 where
  pub Item : Type 0
  pub of_key : String → Item
  pub key_of : Item → Option String
  pub get : Q → Option Item × Q
  pub add : Item → Q → Q
  pub add_rate_limited : Item → Q → Q
  pub forget : Item → Q → Q
  pub done : Item → Q → Q
  pub shut_down : Q → Q

-- A change of a resource, of which the informer tells.
pub data Change (T : Type 0) : Type 0 where
  added : T → Change T
  updated : T → T → Change T
  removed : T → Change T

-- The keys of an object, which client-go makes.
pub record KeyFuncs (T : Type 0) : Type 0 where
  pub meta_namespace_key_func : T → Result String
  pub deletion_handling_meta_namespace_key_func : T → Result String

module _ {Q T : Type 0} (queue : WorkQueue Q) (keys : KeyFuncs T) where
  unfoldable pub add_schedule : T → Q → Q
  add_schedule obj q = elim (keys.meta_namespace_key_func obj) [
    | err e ↦ q
    | ok key ↦ queue.add (queue.of_key key) q
  ]

  unfoldable pub update_schedule : T → T → Q → Q
  unfolding add_schedule
  update_schedule old new = add_schedule new

  unfoldable pub remove_schedule : T → Q → Q
  remove_schedule obj q = elim (keys.deletion_handling_meta_namespace_key_func obj) [
    | err e ↦ q
    | ok key ↦ queue.add (queue.of_key key) q
  ]

  -- The handlers that the controller gives to the informer.
  unfoldable pub on_change : Change T → Q → Q
  unfolding add_schedule update_schedule remove_schedule
  on_change (added obj) = add_schedule obj
  on_change (updated old new) = update_schedule old new
  on_change (removed obj) = remove_schedule obj

-- The queue and the scheduler.
pub record ControllerState (Q W : Type 0) : Type 0 where
  pub workqueue : Q
  pub scheduler : TurndownScheduler W

module _ {Q W : Type 0} (queue : WorkQueue Q) (p : Parts W) (c : ResourceClient W) where
  -- What is done with an item: it is put back after an error, and forgotten else.
  unfoldable pub handle_item : Time → queue.Item → ControllerState Q W → ControllerState Q W
  unfolding handle
  handle_item now obj s = elim (queue.key_of obj) [
    | none ↦ record s { workqueue = queue.done obj (queue.forget obj s.workqueue) }
    | some key ↦
        let (failed, ts) = handle p c now key s.scheduler in
        let settled : Q = elim failed [
          | some e ↦ queue.add_rate_limited (queue.of_key key) s.workqueue
          | none ↦ queue.forget obj s.workqueue
        ] in
        record { workqueue = queue.done obj settled; scheduler = ts }
  ]

  -- With whether the queue goes on.
  unfoldable pub process_next_work_item : Time → ControllerState Q W → Bool × ControllerState Q W
  unfolding handle_item
  process_next_work_item now s =
      let (obj, q) = queue.get s.workqueue in
      let taken = record s { workqueue = q } in
      elim obj [ none ↦ (false, taken) | some item ↦ (true, handle_item now item taken) ]

  -- A worker, at the times at which it comes to its next item.
  unfoldable pub run_worker : List Time → ControllerState Q W → ControllerState Q W
  unfolding process_next_work_item
  run_worker [] s = s
  run_worker (now ∷ times) s =
      let (going, s') = process_next_work_item now s in
      let rest = run_worker times s' in if going then rest else s'

-- The prunings at the ticks before the stop.
unfoldable pub run_prune_completed_schedules :
    {W : Type 0} → Parts W → ResourceClient W → Duration → List Time → W → W
run_prune_completed_schedules p c max_age [] w = w
run_prune_completed_schedules p c max_age (now ∷ ticks) w =
    run_prune_completed_schedules p c max_age ticks (clear_completed_schedules p c now max_age w)

-- What goes on until the stop: the worker comes to an item, or the ticker of the pruning goes off.
pub data Event : Type 0 where
  work prune : Time → Event

abbrev minutes_30 : Duration
minutes_30 = pos 1_800_000_000_000

module _ {Q W : Type 0} (queue : WorkQueue Q) (p : Parts W) (c : ResourceClient W) where
  unfoldable pub run_events : List Event → ControllerState Q W → ControllerState Q W
  unfolding process_next_work_item run_prune_completed_schedules
  run_events [] s = s
  run_events (work now ∷ events) s = run_events events (process_next_work_item queue p c now s).1
  run_events (prune now ∷ events) s = run_events events (record s {
    scheduler = record s.scheduler {
      world = run_prune_completed_schedules p c minutes_30 (now ∷ []) s.scheduler.world;
    };
  })

  -- `synced` is whether the caches of the informer were filled; the queue is shut down in any case.
  unfoldable pub run : Bool → List Event → ControllerState Q W → Option Error × ControllerState Q W
  unfolding run_events
  run synced events s =
      let end = if synced then run_events events s else s in
      (
        if synced then none else some (error "failed to wait for caches to sync"),
        record end { workqueue = queue.shut_down end.workqueue },
      )
