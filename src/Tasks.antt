-- ===== src/Tasks.antt =====
-- pkg/async/tasks/tasks.go: the errors that carry a task. `T` stands for the tasks, whose interface is
-- implemented elsewhere.
pub mod Goroutines
pub mod AtomicBool
pub mod WaitChannel
pub mod Queue
pub mod Executor
pub mod Running
use cluster_turndown.Prelude.{String, Option, none, some, Error}

-- An error of a task: a `*taskError`, which has a task, or any other.
pub data GoError (T : Type 0) : Type 0 where
  task_error : String → T → GoError T
  other : Error → GoError T

module _ {T : Type 0} where
  -- `err.Error()`
  pub message_of : GoError T → String
  message_of (task_error message task) = message
  message_of (other e) = e.message

  pub task_for_error : GoError T → Option T
  task_for_error (task_error message task) = some task
  task_for_error (other e) = none

  unfoldable pub task_error_from : T → GoError T → GoError T
  unfolding task_for_error message_of
  task_error_from task e = elim (task_for_error e) [
    | none ↦ task_error (message_of e) task
    | some t ↦ task_error (message_of e) t
  ]
