-- ===== src/Tasks/Executor.antt =====
-- pkg/async/tasks/tasks.go: the serial executor, as the steps of its two goroutines: one drains the queue
-- into a channel of ten places and closes it, the other runs the tasks that it receives.
pub mod Serial
pub mod Progress
use cluster_turndown.Prelude.{
  ℕ, ◌<◌, String, ◌≡◌, ◌⊎◌, inl, inr, Bool, true, false, Option, none, some, List, [], ◌∷◌, ◌++◌,
  if◌then◌else◌, length,
}
use cluster_turndown.Tasks.{GoError, task_error, task_error_from}
use cluster_turndown.Tasks.AtomicBool
use cluster_turndown.Tasks.AtomicBool.{AtomicBool}
use cluster_turndown.Tasks.Queue.{TaskQueue, new_task_queue}

-- Where the goroutine that runs the tasks stands: at `range tasks`, in a task, in `ReceiveFrom` with the
-- new queue, or at its end with the queue that it leaves in `se.tasks`, if it leaves one.
pub data Consumer (T : Type 0) : Type 0 where
  receiving : Consumer T
  executing : T → Consumer T
  diverting : TaskQueue T → GoError T → Consumer T
  completed : Option (TaskQueue T × GoError T) → Consumer T

-- The queue that is drained, the channel, whether it is closed, the goroutine, `se.current`, the world.
pub data Run (T W : Type 0) : Type 0 where
  run : TaskQueue T → List T → Bool → Consumer T → Option T → W → Run T W

abbrev pub capacity : ℕ
capacity = 10

-- `execute` is the method of the tasks.
module _ {T W : Type 0} (execute : T → W → Option (GoError T) × W) where
  pub data Step : Run T W → Run T W → Type 0 where
    send :
        (t : T) (q ch : List T) (k : Consumer T) (c : Option T) (w : W)
        → length ch < capacity
        → Step (run (t ∷ q) ch false k c w) (run q (ch ++ t ∷ []) false k c w)
    close :
        (ch : List T) (k : Consumer T) (c : Option T) (w : W)
        → Step (run [] ch false k c w) (run [] ch true k c w)
    receive :
        (t : T) (q ch : List T) (b : Bool) (c : Option T) (w : W)
        → Step (run q (t ∷ ch) b receiving c w) (run q ch b (executing t) (some t) w)
    succeed :
        (t : T) (q ch : List T) (b : Bool) (c : Option T) (w v : W)
        → execute t w ≡ (none, v)
        → Step (run q ch b (executing t) c w) (run q ch b receiving c v)
    fail :
        (t : T) (q ch : List T) (b : Bool) (c : Option T) (w v : W) (e : GoError T)
        → execute t w ≡ (some e, v)
        → Step
            (run q ch b (executing t) c w)
            (run q ch b (diverting (t ∷ []) (task_error_from t e)) c v)
    divert :
        (t : T) (q ch tq : List T) (b : Bool) (e : GoError T) (c : Option T) (w : W)
        → Step (run q (t ∷ ch) b (diverting tq e) c w) (run q ch b (diverting (tq ++ t ∷ []) e) c w)
    drained :
        (q : List T) (c : Option T) (w : W)
        → Step (run q [] true receiving c w) (run q [] true (completed none) c w)
    diverted :
        (q tq : List T) (e : GoError T) (c : Option T) (w : W)
        → Step (run q [] true (diverting tq e) c w) (run q [] true (completed (some (tq, e))) c w)

  pub data Steps : Run T W → Run T W → Type 0 where
    here : (r : Run T W) → Steps r r
    on : (r s u : Run T W) → Steps r s → Step s u → Steps r u

pub record SerialExecutor (T : Type 0) : Type 0 where
  pub tasks : TaskQueue T
  pub description : String
  pub running : AtomicBool
  pub current : Option T

module _ {T : Type 0} where
  pub new_serial_executor : List (Option T) → String → SerialExecutor T
  new_serial_executor tasks description = record {
    tasks = new_task_queue tasks;
    description = description;
    running = AtomicBool.of_bool false;
    current = none;
  }

  -- `Execute` up to the start of its goroutines. `self` is the executor as a task.
  pub start : {W : Type 0} → T → SerialExecutor T → W → (GoError T ⊎ Run T W) × SerialExecutor T
  start self se w =
      let (set, flag) = AtomicBool.compare_and_set false true se.running in
      if set
      then (inr (run se.tasks [] false receiving se.current w), record se { running = flag })
      else (inl (task_error "The tasks are already executing" self), se)

  -- `Execute` once `completed` is closed: what it returns, and the executor. `q` is what is left of the
  -- queue that was drained.
  pub finish :
      TaskQueue T
      → Option (TaskQueue T × GoError T)
      → SerialExecutor T
      → Option (GoError T) × SerialExecutor T
  finish q none se =
      (none, record se { tasks = q; current = none; running = AtomicBool.of_bool false })
  finish q (some (tq, e)) se =
      (some e, record se { tasks = tq; current = none; running = AtomicBool.of_bool false })
