-- ===== src/Examples/Running.antt =====
-- The theorems on the executor of tasks, at two tasks of which the second fails.
use cluster_turndown.Prelude.{
  ◌<◌, String, ◌≡◌, refl, true, false, Option, none, some, List, [], ◌∷◌, arith, str_eq,
  if◌then◌else◌, error,
}
use cluster_turndown.Tasks.{GoError, other, task_error, task_error_from}
use cluster_turndown.Tasks.Executor.{
  succeed, Run, Step, Steps, receiving, completed, run, here, on, send, receive, close, drained,
}
use cluster_turndown.Tasks.Executor.Serial.{run_all, begun, Steps-run_all}
use cluster_turndown.Tasks.Executor.Progress.{work, Steps-end}

-- A task is a text; the world lists those that were run.
abbrev execute_text : String → List String → Option (GoError String) × List String
execute_text t w = (if str_eq t "bad" then some (other (error "failed")) else none, t ∷ w)

abbrev tasks : List String
tasks = "good" ∷ "bad" ∷ []

two_tasks :
    run_all execute_text tasks []
    ≡ (some ("bad" ∷ [], task_error "failed" "bad"), "bad" ∷ "good" ∷ [])
unfolding task_error_from
two_tasks = refl

-- The one task, sent, received and run before the channel is closed.
one_task :
    Steps execute_text
      (begun execute_text ("good" ∷ []) none [])
      (run [] [] true (completed none) (some "good") ("good" ∷ []))
one_task =
    on _ _ _
      (on _ _ _
        (on _ _ _
          (on _ _ _ (on _ _ _ (here _) (send "good" [] [] receiving none [] (omega arith)))
            (receive "good" [] [] false none []))
          (succeed "good" [] [] false (some "good") [] ("good" ∷ []) refl))
        (close [] receiving (some "good") ("good" ∷ [])))
      (drained [] (some "good") ("good" ∷ []))

Steps-run_all_example :
    ((none, "good" ∷ []) ≡ run_all execute_text ("good" ∷ []) [])
    × (◌≡◌ {A = List String} [] [])
    × (true ≡ true)
Steps-run_all_example =
    Steps-run_all execute_text ("good" ∷ []) none [] [] [] true none (some "good") ("good" ∷ [])
      one_task

Steps-end_example :
    ((s : Run String (List String))
      → Step execute_text (begun execute_text tasks none []) s
      → work execute_text s < work execute_text (begun execute_text tasks none []))
    × ((ch : List String) × (c' : Option String) × Steps execute_text
          (begun execute_text tasks none [])
          (run [] ch true
            (completed (run_all execute_text tasks []).0)
            c'
            (run_all execute_text tasks []).1))
Steps-end_example =
    Steps-end execute_text tasks none [] (begun execute_text tasks none [])
      (here (begun execute_text tasks none []))
