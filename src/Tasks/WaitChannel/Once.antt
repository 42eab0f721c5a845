-- ===== src/Tasks/WaitChannel/Once.antt =====
-- pkg/async/async.go: WaitChannel as the program uses it, with one call of `Wait`.
use cluster_turndown.Prelude.{
  ℕ, zero, suc, ◌+◌, ◌≤◌, ◌≡◌, refl, sym, ap, ◌∙◌, subst, ◌⊎◌, inl, inr, false, Option, none, some,
  List, [], ◌∷◌, arith,
}
use cluster_turndown.Tasks.WaitChannel.{
  WaitChannel, Caller, entering, taken, assigned, reading, returned, Closer, starting,
  waiting_group, resetting_flag, resetting_channel, closing, ended, call_step, close, close_step,
  Running, Turn, call_turn, close_turn, done_turn, take_turn, run_turns, done, add,
  new_wait_channel, step_callers, step_closers,
}

-- A channel of a group, of which no goroutine panicked.
abbrev pub channel_of : ℕ → ℕ → Option ℕ → ℕ → List ℕ → WaitChannel
channel_of group flag channel made closed = record {
  waiting = flag;
  wait_group = group;
  wait_channel = channel;
  made = made;
  closed = closed;
  panicked = false;
}

-- The tasks that are done in the course of the turns.
abbrev pub dones : List Turn → ℕ
dones [] = 0
dones (done_turn ∷ ts) = suc (dones ts)
dones (_ ∷ ts) = dones ts

-- A caller that has started its goroutine and has not returned, or has returned a channel.
late : Option (Option ℕ) → Caller
late none = reading
late (some c) = returned c

-- The stages that one call and its goroutine come through, with the tasks that the group has left.
data Stage : Type 0 where
  stage_entering stage_taken stage_assigned : ℕ → Stage
  stage_starting stage_waiting : ℕ → Option (Option ℕ) → Stage
  stage_flag stage_channel stage_closing stage_ended : Option (Option ℕ) → Stage

abbrev with_closer : Option (Option ℕ) → Closer → WaitChannel → Running
with_closer k closer shared = record {
  callers = late k ∷ [];
  closers = closer ∷ [];
  shared = shared;
}

at_stage : Stage → Running
unfolding late
at_stage (stage_entering n) = record {
  callers = entering ∷ [];
  closers = [];
  shared = channel_of n 0 none 0 [];
}
at_stage (stage_taken n) = record {
  callers = taken ∷ [];
  closers = [];
  shared = channel_of n 1 none 0 [];
}
at_stage (stage_assigned n) = record {
  callers = assigned ∷ [];
  closers = [];
  shared = channel_of n 1 (some 0) 1 [];
}
at_stage (stage_starting n k) = with_closer k starting (channel_of n 1 (some 0) 1 [])
at_stage (stage_waiting n k) = with_closer k (waiting_group (some 0)) (channel_of n 1 (some 0) 1 [])
at_stage (stage_flag k) = with_closer k (resetting_flag (some 0)) (channel_of 0 1 (some 0) 1 [])
at_stage (stage_channel k) =
    with_closer k (resetting_channel (some 0)) (channel_of 0 0 (some 0) 1 [])
at_stage (stage_closing k) = with_closer k (closing (some 0)) (channel_of 0 0 none 1 [])
at_stage (stage_ended k) = with_closer k ended (channel_of 0 0 none 1 (0 ∷ []))

-- The tasks that are left.
left : Stage → ℕ
unfolding at_stage
left s = (at_stage s).shared.wait_group

step_call :
    (i : ℕ) (s : Stage)
    → (s' : Stage) × (take_turn (call_turn i) (at_stage s) ≡ at_stage s') × (left s' ≡ left s)
unfolding take_turn call_step step_callers at_stage left late
step_call zero (stage_entering n) = (stage_taken n, refl, refl)
step_call zero (stage_taken n) = (stage_assigned n, refl, refl)
step_call zero (stage_assigned n) = (stage_starting n none, refl, refl)
step_call zero (stage_starting n none) = (stage_starting n (some (some 0)), refl, refl)
step_call zero (stage_waiting n none) = (stage_waiting n (some (some 0)), refl, refl)
step_call zero (stage_flag none) = (stage_flag (some (some 0)), refl, refl)
step_call zero (stage_channel none) = (stage_channel (some (some 0)), refl, refl)
step_call zero (stage_closing none) = (stage_closing (some none), refl, refl)
step_call zero (stage_ended none) = (stage_ended (some none), refl, refl)
step_call zero (stage_starting n (some c)) = (stage_starting n (some c), refl, refl)
step_call zero (stage_waiting n (some c)) = (stage_waiting n (some c), refl, refl)
step_call zero (stage_flag (some c)) = (stage_flag (some c), refl, refl)
step_call zero (stage_channel (some c)) = (stage_channel (some c), refl, refl)
step_call zero (stage_closing (some c)) = (stage_closing (some c), refl, refl)
step_call zero (stage_ended (some c)) = (stage_ended (some c), refl, refl)
step_call (suc i) (stage_entering n) = (stage_entering n, refl, refl)
step_call (suc i) (stage_taken n) = (stage_taken n, refl, refl)
step_call (suc i) (stage_assigned n) = (stage_assigned n, refl, refl)
step_call (suc i) (stage_starting n k) = (stage_starting n k, refl, refl)
step_call (suc i) (stage_waiting n k) = (stage_waiting n k, refl, refl)
step_call (suc i) (stage_flag k) = (stage_flag k, refl, refl)
step_call (suc i) (stage_channel k) = (stage_channel k, refl, refl)
step_call (suc i) (stage_closing k) = (stage_closing k, refl, refl)
step_call (suc i) (stage_ended k) = (stage_ended k, refl, refl)

step_close :
    (i : ℕ) (s : Stage)
    → (s' : Stage) × (take_turn (close_turn i) (at_stage s) ≡ at_stage s') × (left s' ≡ left s)
unfolding take_turn close_step close step_closers at_stage left late
step_close i (stage_entering n) = (stage_entering n, refl, refl)
step_close i (stage_taken n) = (stage_taken n, refl, refl)
step_close i (stage_assigned n) = (stage_assigned n, refl, refl)
step_close zero (stage_starting n k) = (stage_waiting n k, refl, refl)
step_close zero (stage_waiting zero k) = (stage_flag k, refl, refl)
step_close zero (stage_waiting (suc n) k) = (stage_waiting (suc n) k, ground arith, refl)
step_close zero (stage_flag k) = (stage_channel k, refl, refl)
step_close zero (stage_channel k) = (stage_closing k, refl, refl)
step_close zero (stage_closing k) = (stage_ended k, refl, refl)
step_close zero (stage_ended k) = (stage_ended k, refl, refl)
step_close (suc i) (stage_starting n k) = (stage_starting n k, refl, refl)
step_close (suc i) (stage_waiting n k) = (stage_waiting n k, refl, refl)
step_close (suc i) (stage_flag k) = (stage_flag k, refl, refl)
step_close (suc i) (stage_channel k) = (stage_channel k, refl, refl)
step_close (suc i) (stage_closing k) = (stage_closing k, refl, refl)
step_close (suc i) (stage_ended k) = (stage_ended k, refl, refl)

no_task : 1 ≤ 0 → ⊥
no_task h = omega (arith, h)

step_done :
    (s : Stage)
    → 1 ≤ left s
    → (s' : Stage) × (take_turn done_turn (at_stage s) ≡ at_stage s') × (suc (left s') ≡ left s)
unfolding take_turn done at_stage left
step_done (stage_entering (suc n)) h = (stage_entering n, refl, refl)
step_done (stage_taken (suc n)) h = (stage_taken n, refl, refl)
step_done (stage_assigned (suc n)) h = (stage_assigned n, refl, refl)
step_done (stage_starting (suc n) k) h = (stage_starting n k, refl, refl)
step_done (stage_waiting (suc n) k) h = (stage_waiting n k, refl, refl)
step_done _ h = elim (no_task h) [ ]

run_turns-stage :
    (ts : List Turn) (s : Stage)
    → dones ts ≤ left s
    → (s' : Stage) × (run_turns ts (at_stage s) ≡ at_stage s')
unfolding run_turns
run_turns-stage [] s h = (s, refl)
run_turns-stage (call_turn i ∷ ts) s h =
    let (s', next, same) = step_call i s in
    let (t, end) = run_turns-stage ts s' (omega (arith, h, same)) in
    (t, ap (run_turns ts) next ∙ end)
run_turns-stage (close_turn i ∷ ts) s h =
    let (s', next, same) = step_close i s in
    let (t, end) = run_turns-stage ts s' (omega (arith, h, same)) in
    (t, ap (run_turns ts) next ∙ end)
run_turns-stage (done_turn ∷ ts) s h =
    let (s', next, fewer) = step_done s (omega (arith, h)) in
    let (t, end) = run_turns-stage ts s' (omega (arith, h, fewer)) in
    (t, ap (run_turns ts) next ∙ end)

-- Nothing panicked, and the one channel is open, or is closed once and the group is done.
abbrev pub IsSafe : WaitChannel → Type 0
IsSafe wc = (wc.panicked ≡ false) × ((wc.closed ≡ []) ⊎ (wc.closed ≡ 0 ∷ []) × (wc.wait_group ≡ 0))

safe : (s : Stage) → IsSafe (at_stage s).shared
unfolding at_stage
safe (stage_entering n) = (refl, inl refl)
safe (stage_taken n) = (refl, inl refl)
safe (stage_assigned n) = (refl, inl refl)
safe (stage_starting n k) = (refl, inl refl)
safe (stage_waiting n k) = (refl, inl refl)
safe (stage_flag k) = (refl, inl refl)
safe (stage_channel k) = (refl, inl refl)
safe (stage_closing k) = (refl, inl refl)
safe (stage_ended k) = (refl, inr (refl, refl))

-- A channel for a group of this many tasks, on which one call of `Wait` begins.
abbrev pub one_call : ℕ → Running
one_call n = record { callers = entering ∷ []; closers = []; shared = add n new_wait_channel }

-- However the turns of one call of `Wait`, of its goroutine and of the tasks come, of which no more are done
-- than were added, nothing panics, and the channel is closed at most once and only with all tasks done.
pub run_turns-one_call :
    (n : ℕ) (ts : List Turn) → dones ts ≤ n → IsSafe (run_turns ts (one_call n)).shared
unfolding at_stage left add new_wait_channel
run_turns-one_call n ts h =
    let (s, end) = run_turns-stage ts (stage_entering n) h in
    let sum : 0 + n ≡ n = omega arith in
    let start : one_call n ≡ at_stage (stage_entering n) =
      ap (λ m. record { callers = entering ∷ []; closers = []; shared = channel_of m 0 none 0 [] })
        sum in
    subst (λ r. IsSafe r.shared) (sym (ap (run_turns ts) start ∙ end)) (safe s)
