-- ===== src/Tasks/WaitChannel.antt =====
-- pkg/async/async.go: WaitChannel, with the callers of `Wait` and the goroutines that close its channels, each of
-- which takes one turn after the other. A channel is a number; a missing one is nil.
pub mod Once
use cluster_turndown.Prelude.{
  ℕ, zero, suc, ◌+◌, Bool, true, false, ◌||◌, Option, none, some, List, [], ◌∷◌, ◌++◌, ◌==◌,
  if◌then◌else◌,
}
use cluster_turndown.Tasks.AtomicBool.{AtomicBool, of_bool, compare_and_set}

-- `waitChannelImpl`, with the counter of its wait group, the number of channels that were made, those that are
-- closed, and whether a goroutine panicked.
pub record WaitChannel : Type 0 where
  pub waiting : AtomicBool
  pub wait_group : ℕ
  pub wait_channel : Option ℕ
  pub made : ℕ
  pub closed : List ℕ
  pub panicked : Bool

unfoldable pub new_wait_channel : WaitChannel
new_wait_channel = record {
  waiting = of_bool false;
  wait_group = 0;
  wait_channel = none;
  made = 0;
  closed = [];
  panicked = false;
}

unfoldable pub add : ℕ → WaitChannel → WaitChannel
add delta wc = record wc { wait_group = wc.wait_group + delta }

-- A counter below zero is a panic.
unfoldable pub done : WaitChannel → WaitChannel
done wc = elim (wc.wait_group) [
  | zero ↦ record wc { panicked = true }
  | suc n ↦ record wc { wait_group = n }
]

-- Where a call of `Wait` is: before the flag is taken, before the channel is made, before the goroutine is
-- started, before the channel is read and returned, and after that.
pub data Caller : Type 0 where
  entering taken assigned reading : Caller
  returned : Option ℕ → Caller

-- Where a goroutine is: before it reads the channel, before the group is done, and before each of the three
-- deferred steps, which reset the flag and the channel and close the channel that was read.
pub data Closer : Type 0 where
  starting : Closer
  waiting_group resetting_flag resetting_channel closing : Option ℕ → Closer
  ended : Closer

-- One step of a caller; it may start a goroutine.
unfoldable pub call_step : Caller → WaitChannel → Caller × List Closer × WaitChannel
call_step entering wc =
    let (won, flag) = compare_and_set false true wc.waiting in
    (if won then taken else reading, [], record wc { waiting = flag })
call_step taken wc = (assigned, [], record wc { wait_channel = some wc.made; made = suc wc.made })
call_step assigned wc = (reading, starting ∷ [], wc)
call_step reading wc = (returned wc.wait_channel, [], wc)
call_step (returned c) wc = (returned c, [], wc)

-- `close(c)`: of a nil channel and of a closed one it is a panic.
unfoldable pub close : Option ℕ → WaitChannel → WaitChannel
close none wc = record wc { panicked = true }
close (some c) wc =
    if is_closed wc.closed
    then record wc { panicked = true }
    else record wc { closed = c ∷ wc.closed }
  where
    is_closed : List ℕ → Bool
    is_closed [] = false
    is_closed (d ∷ ds) = d == c || is_closed ds

-- One step of a goroutine, which is blocked while the group is not done.
unfoldable pub close_step : Closer → WaitChannel → Closer × WaitChannel
unfolding close
close_step starting wc = (waiting_group wc.wait_channel, wc)
close_step (waiting_group c) wc =
    (if wc.wait_group == 0 then resetting_flag c else waiting_group c, wc)
close_step (resetting_flag c) wc =
    (resetting_channel c, record wc { waiting = (compare_and_set true false wc.waiting).1 })
close_step (resetting_channel c) wc = (closing c, record wc { wait_channel = none })
close_step (closing c) wc = (ended, close c wc)
close_step ended wc = (ended, wc)

-- Callers and goroutines with the channel that they share.
pub record Running : Type 0 where
  pub callers : List Caller
  pub closers : List Closer
  pub shared : WaitChannel

-- Whose turn it is: a caller's, a goroutine's, or that of a task of the group, which is done.
pub data Turn : Type 0 where
  call_turn close_turn : ℕ → Turn
  done_turn : Turn

step_callers : ℕ → List Caller → WaitChannel → List Caller × List Closer × WaitChannel
unfolding call_step
step_callers i [] wc = ([], [], wc)
step_callers zero (c ∷ cs) wc = let (c', new, wc') = call_step c wc in (c' ∷ cs, new, wc')
step_callers (suc i) (c ∷ cs) wc = let (cs', new, wc') = step_callers i cs wc in (c ∷ cs', new, wc')

step_closers : ℕ → List Closer → WaitChannel → List Closer × WaitChannel
unfolding close_step
step_closers i [] wc = ([], wc)
step_closers zero (c ∷ cs) wc = let (c', wc') = close_step c wc in (c' ∷ cs, wc')
step_closers (suc i) (c ∷ cs) wc = let (cs', wc') = step_closers i cs wc in (c ∷ cs', wc')

unfoldable pub take_turn : Turn → Running → Running
unfolding step_callers step_closers done
take_turn (call_turn i) r =
    let (callers, new, shared) = step_callers i r.callers r.shared in
    record { callers = callers; closers = r.closers ++ new; shared = shared }
take_turn (close_turn i) r =
    let (closers, shared) = step_closers i r.closers r.shared in
    record r { closers = closers; shared = shared }
take_turn done_turn r = record r { shared = done r.shared }

unfoldable pub run_turns : List Turn → Running → Running
unfolding take_turn
run_turns [] r = r
run_turns (t ∷ ts) r = run_turns ts (take_turn t r)
