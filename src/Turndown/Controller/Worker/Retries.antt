-- ===== src/Turndown/Controller/Worker/Retries.antt =====
-- pkg/turndown/schedulecontroller.go: a key that fails is handled again.
use cluster_turndown.Prelude.{
  String, ◌≡◌, refl, sym, ap, ◌∙◌, subst, ◌≢◌, inl, inr, true, Option, none, some, List, [], ◌∷◌,
  ◌++◌, Option-cases, Error, Result, ok,
}
use cluster_turndown.Turndown.Time.{Time}
use cluster_turndown.Turndown.Scheduler.{Parts, TurndownScheduler}
use cluster_turndown.Turndown.Controller.Worker.{
  WorkQueue, KeyFuncs, ControllerState, Change, add_schedule, update_schedule, remove_schedule,
  on_change, handle_item, process_next_work_item, run_worker, added, updated, removed,
}
use cluster_turndown.Turndown.Controller.{ResourceClient, handle}

-- No key of the list is the one.
abbrev pub IsAbsent : String → List String → Type 0
IsAbsent key [] = Unit {0}
IsAbsent key (k ∷ ks) = (k ≢ key) × IsAbsent key ks

-- What the documentation of client-go says of the queue, of which `waiting` are the keys that wait or will,
-- once each, in the order in which they come up: an item that is put back comes last, one that is forgotten
-- is not kept.
pub record IsWorkQueue {Q : Type 0} (queue : WorkQueue Q) (waiting : Q → List String) : Type 0 where
  pub key_of-of_key : (key : String) → queue.key_of (queue.of_key key) ≡ some key
  pub gets :
      (q : Q) (key : String) (keys : List String)
      → waiting q ≡ key ∷ keys
      → ((queue.get q).0 ≡ some (queue.of_key key)) × (waiting (queue.get q).1 ≡ keys)
  pub adds :
      (q : Q) (key : String)
      → IsAbsent key (waiting q)
      → waiting (queue.add (queue.of_key key) q) ≡ waiting q ++ key ∷ []
  pub puts_back :
      (q : Q) (key : String)
      → IsAbsent key (waiting q)
      → waiting (queue.done (queue.of_key key) (queue.add_rate_limited (queue.of_key key) q))
        ≡ waiting q ++ key ∷ []
  pub forgets :
      (q : Q) (key : String)
      → waiting (queue.done (queue.of_key key) (queue.forget (queue.of_key key) q)) ≡ waiting q

-- The keys that wait when one was handled: it comes last if there was an error.
abbrev pub settled : Option Error → String → List String → List String
settled none key keys = keys
settled (some e) key keys = keys ++ key ∷ []

module _ {W : Type 0} (p : Parts W) (c : ResourceClient W) where
  -- The scheduler when a key was handled at these times.
  abbrev pub after_handling : String → List Time → TurndownScheduler W → TurndownScheduler W
  after_handling key [] ts = ts
  after_handling key (now ∷ times) ts = after_handling key times (handle p c now key ts).1

  -- A key fails whenever it is handled at these times, one after the other.
  abbrev pub IsFailing : String → List Time → TurndownScheduler W → Type 0
  IsFailing key [] ts = Unit {0}
  IsFailing key (now ∷ times) ts =
      ((handle p c now key ts).0 ≢ none) × IsFailing key times (handle p c now key ts).1

module _ {Q W : Type 0} (queue : WorkQueue Q) (waiting : Q → List String)
    (law : IsWorkQueue queue waiting) (p : Parts W) (c : ResourceClient W) where
  -- A round takes the first key that waits, and no other, and handles it once; the key waits again, behind
  -- the others, if the handling failed, and else no longer. The worker goes on.
  pub process_next_work_item-first :
      (now : Time) (s : ControllerState Q W) (key : String) (keys : List String)
      → waiting s.workqueue ≡ key ∷ keys
      → IsAbsent key keys
      → let (failed, ts) = handle p c now key s.scheduler in
        let (going, s') = process_next_work_item queue p c now s in
        (going ≡ true) × (s'.scheduler ≡ ts) × (waiting s'.workqueue ≡ settled failed key keys)
  unfolding process_next_work_item handle_item
  process_next_work_item-first now s key keys at fresh =
      let (got, left) = law.gets s.workqueue key keys at in
      elim (Option-cases (handle p c now key s.scheduler).0) [
        | inl fine ↦
            rw (process_next_work_item, got, handle_item, law.key_of-of_key, fine)
              (refl, refl, law.forgets _ key ∙ left)
        | inr (e, failed) ↦
            let fresh' = subst (IsAbsent key) (sym left) fresh in
            rw (process_next_work_item, got, handle_item, law.key_of-of_key, failed)
              (refl, refl, law.puts_back _ key fresh' ∙ ap (λ ks. ks ++ key ∷ []) left)
      ]

  -- The only key that waits is handled again after each error, however many there are in a row, until it is
  -- handled without one; then no key waits any more.
  pub run_worker-retries :
      (times : List Time) (last : Time) (s : ControllerState Q W) (key : String)
      → waiting s.workqueue ≡ key ∷ []
      → IsFailing p c key times s.scheduler
      → (handle p c last key (after_handling p c key times s.scheduler)).0 ≡ none
      → let s' = run_worker queue p c (times ++ last ∷ []) s in
        (s'.scheduler ≡ after_handling p c key (times ++ last ∷ []) s.scheduler)
        × (waiting s'.workqueue ≡ [])
  unfolding run_worker
  run_worker-retries [] last s key at failing fine =
      let (going, same, left) = process_next_work_item-first last s key [] at tt in
      rw going (same, left ∙ ap (λ r. settled r key []) fine)
  run_worker-retries (now ∷ times) last s key at (fails, failing) fine =
      let (going, same, left) = process_next_work_item-first now s key [] at tt in
      let s' = (process_next_work_item queue p c now s).1 in
      elim (Option-cases (handle p c now key s.scheduler).0) [
        | inl none_failed ↦ elim (fails none_failed) [ ]
        | inr (e, failed) ↦
            let (handled, empty) =
              run_worker-retries times last s' key (left ∙ ap (λ r. settled r key []) failed)
                (subst (IsFailing p c key times) (sym same) failing)
                (ap (λ ts. (handle p c last key (after_handling p c key times ts)).0) same
                  ∙ fine) in
            rw going (handled ∙ ap (after_handling p c key (times ++ last ∷ [])) same, empty)
      ]

-- The key of what changed.
abbrev pub key_of_change : {T : Type 0} → KeyFuncs T → Change T → Result String
key_of_change keys (added obj) = keys.meta_namespace_key_func obj
key_of_change keys (updated old new) = keys.meta_namespace_key_func new
key_of_change keys (removed obj) = keys.deletion_handling_meta_namespace_key_func obj

module _ {Q T : Type 0} (queue : WorkQueue Q) (waiting : Q → List String)
    (law : IsWorkQueue queue waiting) (keys : KeyFuncs T) where
  -- A change of a resource with a key puts the key behind those that wait, if it is not among them.
  on_change-waiting :
      (change : Change T) (q : Q) (key : String)
      → key_of_change keys change ≡ ok key
      → IsAbsent key (waiting q)
      → waiting (on_change queue keys change q) ≡ waiting q ++ key ∷ []
  unfolding on_change add_schedule update_schedule remove_schedule
  on_change-waiting (added obj) q key is_key fresh =
      rw (add_schedule, is_key) (law.adds q key fresh)
  on_change-waiting (updated old new) q key is_key fresh =
      rw (add_schedule, is_key) (law.adds q key fresh)
  on_change-waiting (removed obj) q key is_key fresh =
      rw (remove_schedule, is_key) (law.adds q key fresh)

  -- A resource that was added, updated or removed while no key waits is handled by its key, again after each
  -- error, however many there are in a row, until it is handled without one; then no key waits any more.
  pub run_worker-on_change :
      {W : Type 0} (p : Parts W) (c : ResourceClient W) (times : List Time) (last : Time)
      (change : Change T) (s : ControllerState Q W) (key : String)
      → waiting s.workqueue ≡ []
      → key_of_change keys change ≡ ok key
      → IsFailing p c key times s.scheduler
      → (handle p c last key (after_handling p c key times s.scheduler)).0 ≡ none
      → let changed = record s { workqueue = on_change queue keys change s.workqueue } in
        let s' = run_worker queue p c (times ++ last ∷ []) changed in
        (s'.scheduler ≡ after_handling p c key (times ++ last ∷ []) s.scheduler)
        × (waiting s'.workqueue ≡ [])
  run_worker-on_change p c times last change s key idle is_key failing fine =
      let queued =
        on_change-waiting change s.workqueue key is_key (subst (IsAbsent key) (sym idle) tt) in
      run_worker-retries queue waiting law p c times last
        (record s { workqueue = on_change queue keys change s.workqueue }) key
        (queued ∙ ap (λ ks. ks ++ key ∷ []) idle) failing fine
