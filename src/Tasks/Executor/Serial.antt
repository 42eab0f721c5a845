-- ===== src/Tasks/Executor/Serial.antt =====
-- What the executor does is what running the tasks one after the other does, whatever the order in which
-- its goroutines take their steps.
use cluster_turndown.Prelude.{
  ◌≤◌, ◌≡◌, refl, sym, ap, ◌∙◌, Bool, true, false, Option, none, some, List, [], ◌∷◌, ◌++◌,
  append-nil, append_assoc, arith, length, length-append,
}
use cluster_turndown.Tasks.{GoError, task_error_from}
use cluster_turndown.Tasks.Queue.{TaskQueue}
use cluster_turndown.Tasks.Executor.{
  Consumer, Run, Step, Steps, here, on, capacity, run, receiving, executing, diverting, completed,
  send, close, receive, succeed, fail, divert, drained, diverted,
}

module _ {T W : Type 0} (execute : T → W → Option (GoError T) × W) where
  -- The tasks, run in order up to the first that fails: what is left with the error, and the world.
  abbrev pub run_all : List T → W → Option (TaskQueue T × GoError T) × W
  run_all [] w = (none, w)
  run_all (t ∷ ts) w =
      let rest = run_all ts (execute t w).1 in
      elim ((execute t w).0) [
        | none ↦ rest
        | some e ↦ (some (t ∷ ts, task_error_from t e), (execute t w).1)
      ]

  -- What a state is still to come to.
  abbrev pub outlook : Run T W → Option (TaskQueue T × GoError T) × W
  outlook (run q ch b receiving c w) = run_all (ch ++ q) w
  outlook (run q ch b (executing t) c w) = run_all (t ∷ ch ++ q) w
  outlook (run q ch b (diverting tq e) c w) = (some (tq ++ (ch ++ q), e), w)
  outlook (run q ch b (completed r) c w) = (r, w)

  abbrev IsOver : Consumer T → Bool → Type 0
  IsOver (completed r) b = b ≡ true
  IsOver receiving b = Unit
  IsOver (executing t) b = Unit
  IsOver (diverting tq e) b = Unit

  IsOver-true : (k : Consumer T) → IsOver k true
  IsOver-true receiving = tt
  IsOver-true (executing t) = tt
  IsOver-true (diverting tq e) = tt
  IsOver-true (completed r) = refl

  -- The channel has ten places, is closed only when the queue has been drained, and is closed when the
  -- goroutine has ended.
  abbrev pub IsSound : Run T W → Type 0
  IsSound (run q ch b k c w) = (length ch ≤ capacity) × ((b ≡ true) → q ≡ []) × IsOver k b

  Step-IsSound : (r s : Run T W) → Step execute r s → IsSound r → IsSound s
  Step-IsSound _ _ (send t q ch k c w h) (l, f, o) =
      (omega (arith, h, length-append ch (t ∷ [])), λ e. ground (arith, e), o)
  Step-IsSound _ _ (close ch k c w) (l, f, o) = (l, λ e. refl, IsOver-true k)
  Step-IsSound _ _ (receive t q ch b c w) (l, f, o) = (omega (arith, l), f, tt)
  Step-IsSound _ _ (succeed t q ch b c w v e) h = h
  Step-IsSound _ _ (fail t q ch b c w v x e) h = h
  Step-IsSound _ _ (divert t q ch tq b e c w) (l, f, o) = (omega (arith, l), f, tt)
  Step-IsSound _ _ (drained q c w) (l, f, o) = (l, f, refl)
  Step-IsSound _ _ (diverted q tq e c w) (l, f, o) = (l, f, refl)

  both : {A B : Type 0} {x : A × B} {a : A} {b : B} → x ≡ (a, b) → (x.0 ≡ a) × (x.1 ≡ b)
  both e = (ap (λ p. p.0) e, ap (λ p. p.1) e)

  outlook-Step : (r s : Run T W) → Step execute r s → IsSound r → outlook r ≡ outlook s
  outlook-Step _ _ (send t q ch receiving c w h) g =
      ap (λ ts. run_all ts w) (sym (append_assoc ch (t ∷ []) q))
  outlook-Step _ _ (send t q ch (executing u) c w h) g =
      ap (λ ts. run_all (u ∷ ts) w) (sym (append_assoc ch (t ∷ []) q))
  outlook-Step _ _ (send t q ch (diverting tq e) c w h) g =
      ap (λ ts. (some (tq ++ ts, e), w)) (sym (append_assoc ch (t ∷ []) q))
  outlook-Step _ _ (send t q ch (completed r) c w h) g = refl
  outlook-Step _ _ (close ch receiving c w) g = refl
  outlook-Step _ _ (close ch (executing u) c w) g = refl
  outlook-Step _ _ (close ch (diverting tq e) c w) g = refl
  outlook-Step _ _ (close ch (completed r) c w) g = refl
  outlook-Step _ _ (receive t q ch b c w) g = refl
  outlook-Step _ _ (succeed t q ch b c w v e) g =
      let (silent, next) = both e in rw (silent, next) refl
  outlook-Step _ _ (fail t q ch b c w v x e) g =
      let (failed, next) = both e in rw (failed, next) refl
  outlook-Step _ _ (divert t q ch tq b e c w) g =
      ap (λ ts. (some (ts, e), w)) (sym (append_assoc tq (t ∷ []) (ch ++ q)))
  outlook-Step _ _ (drained q c w) (l, f, o) = rw (f refl) refl
  outlook-Step _ _ (diverted q tq e c w) (l, f, o) = rw (f refl, append-nil tq) refl

  module _ (ts : List T) (c : Option T) (w : W) where
    -- The start of an execution.
    abbrev pub begun : Run T W
    begun = run ts [] false receiving c w

    pub IsSound-reached : (r : Run T W) → Steps execute begun r → IsSound r
    IsSound-reached _ (here _) = (omega arith, λ e. ground (arith, e), tt)
    IsSound-reached _ (on _ s u steps step) = Step-IsSound s u step (IsSound-reached s steps)

    outlook-reached : (r : Run T W) → Steps execute begun r → run_all ts w ≡ outlook r
    outlook-reached _ (here _) = refl
    outlook-reached _ (on _ s u steps step) =
        outlook-reached s steps ∙ outlook-Step s u step (IsSound-reached s steps)

    -- Whatever the order of the steps of its two goroutines, an execution that ends has come to the
    -- result and the world of running the tasks in order up to the first that fails, with that task and
    -- those behind it left over, and the queue that it drained is empty.
    pub Steps-run_all :
        (q ch : List T) (b : Bool) (r : Option (TaskQueue T × GoError T)) (c' : Option T) (v : W)
        → Steps execute begun (run q ch b (completed r) c' v)
        → ((r, v) ≡ run_all ts w) × (q ≡ []) × (b ≡ true)
    Steps-run_all q ch b r c' v steps =
        let (l, f, over) = IsSound-reached (run q ch b (completed r) c' v) steps in
        (sym (outlook-reached _ steps), f over, over)
