-- ===== src/Tasks/Running.antt =====
-- pkg/async/tasks/tasks.go: what an executor says of itself, and the executor that runs in a goroutine.
use Prim.Native.String.{◌++◌ as str_append}
use cluster_turndown.Prelude.{String, Bool, Option, none, some, List, if◌then◌else◌}
use cluster_turndown.Tasks.{GoError}
use cluster_turndown.Tasks.AtomicBool
use cluster_turndown.Tasks.Executor.{SerialExecutor, new_serial_executor}

-- `funcTask`
pub record FuncTask (W E : Type 0) : Type 0 where
  pub fn : W → Option E × W
  pub description : String

abbrev pub task_from_func : {W E : Type 0} → (W → Option E × W) → String → FuncTask W E
task_from_func fn description = record { fn = fn; description = description }

abbrev pub execute_func : {W E : Type 0} → FuncTask W E → W → Option E × W
execute_func t = t.fn

module _ {T : Type 0} (description_of : T → String) where
  unfoldable pub is_executing : SerialExecutor T → Bool
  is_executing se = AtomicBool.get se.running

  unfoldable pub serial_description : SerialExecutor T → String
  serial_description se = elim (se.current) [
    | none ↦ se.description
    | some task ↦ str_append "[" (str_append se.description (str_append "] " (description_of task)))
  ]

  unfoldable pub update_current : T → SerialExecutor T → SerialExecutor T
  update_current task se = record se { current = some task }

-- The channel holds the outcome once there is one; it has one place, so that sending does not block.
pub record RunningExecutor (T : Type 0) : Type 0 where
  pub executor : SerialExecutor T
  pub on_complete : Option (Option (GoError T))

module _ {T : Type 0} (description_of : T → String) where
  unfoldable pub running_description : RunningExecutor T → String
  unfolding is_executing serial_description
  running_description re =
      if is_executing description_of re.executor
      then serial_description description_of re.executor
      else "Not Running"

  -- Before its goroutine has made a step.
  unfoldable pub run_executor : SerialExecutor T → RunningExecutor T
  run_executor se = record { executor = se; on_complete = none }

  -- The goroutine at its end, with what `Execute` returned.
  unfoldable pub deliver : Option (GoError T) × SerialExecutor T → RunningExecutor T
  deliver (outcome, se) = record { executor = se; on_complete = some outcome }

  unfoldable pub execute_serially : List (Option T) → String → RunningExecutor T
  unfolding run_executor
  execute_serially tasks description = run_executor (new_serial_executor tasks description)
