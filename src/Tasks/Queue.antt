-- ===== src/Tasks/Queue.antt =====
-- pkg/async/tasks/tasks.go: the queue of tasks.
use cluster_turndown.Prelude.{
  ℕ, ◌≡◌, sym, ◌∙◌, Bool, true, false, Option, none, some, List, [], ◌∷◌, ◌++◌, append-nil,
  append_assoc, ◌==◌, length,
}

-- The slice that a `*TaskQueue` points at. A nil task is `none`.
abbrev pub TaskQueue : Type 0 → Type 0
TaskQueue T = List T

module _ {T : Type 0} where
  abbrev pub enqueue : Option T → TaskQueue T → Bool × TaskQueue T
  enqueue none q = (false, q)
  enqueue (some task) q = (true, q ++ task ∷ [])

  enqueue_all : List (Option T) → TaskQueue T → TaskQueue T
  enqueue_all [] q = q
  enqueue_all (task ∷ tasks) q = enqueue_all tasks (enqueue task q).1

  pub new_task_queue : List (Option T) → TaskQueue T
  unfolding enqueue_all
  new_task_queue tasks = enqueue_all tasks []

  abbrev pub dequeue : TaskQueue T → Option T × TaskQueue T
  dequeue [] = (none, [])
  dequeue (value ∷ q) = (some value, q)

  abbrev pub peek : TaskQueue T → Option T
  peek [] = none
  peek (value ∷ q) = some value

  abbrev pub len : TaskQueue T → ℕ
  len q = length q

  abbrev pub is_empty : TaskQueue T → Bool
  is_empty q = len q == 0

  -- The tasks of a slice that are not nil.
  abbrev pub present : List (Option T) → List T
  present [] = []
  present (none ∷ tasks) = present tasks
  present (some task ∷ tasks) = task ∷ present tasks

  enqueue_all-present :
      (tasks : List (Option T)) (q : TaskQueue T) → enqueue_all tasks q ≡ q ++ present tasks
  unfolding enqueue_all
  enqueue_all-present [] q = sym (append-nil q)
  enqueue_all-present (none ∷ tasks) q = enqueue_all-present tasks q
  enqueue_all-present (some task ∷ tasks) q =
      enqueue_all-present tasks (q ++ task ∷ []) ∙ append_assoc q (task ∷ []) (present tasks)

  -- A new queue holds the tasks of the slice that are not nil, in order.
  pub new_task_queue-present : (tasks : List (Option T)) → new_task_queue tasks ≡ present tasks
  unfolding new_task_queue
  new_task_queue-present tasks = enqueue_all-present tasks []
