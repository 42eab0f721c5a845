-- ===== src/Tasks/Executor/Progress.antt =====
-- The executor comes to its end: it is never stuck before, and each step leaves less to do.
use cluster_turndown.Prelude.{
  ℕ, zero, suc, ◌+◌, ◌*◌, ◌≤◌, ◌<◌, ap, subst, ◌⊎◌, inl, inr, true, false, Option, List, [], ◌∷◌,
  arith, if◌then◌else◌, Option-cases, length, length-append,
}
use cluster_turndown.Tasks.{GoError}
use cluster_turndown.Tasks.Queue.{TaskQueue}
use cluster_turndown.Tasks.Executor.{
  Run, Consumer, Step, Steps, here, on, run, receiving, executing, diverting, completed, send,
  close, receive, succeed, fail, divert, drained, diverted,
}
use cluster_turndown.Tasks.Executor.Serial.{begun, run_all, Steps-run_all}

module _ {T W : Type 0} (execute : T → W → Option (GoError T) × W) where
  abbrev phase_work : Consumer T → ℕ
  phase_work receiving = 1
  phase_work (executing t) = 4
  phase_work (diverting tq e) = 1
  phase_work (completed r) = 0

  -- The steps that are left, at most.
  abbrev pub work : Run T W → ℕ
  work (run q ch b k c w) = 5 * length q + 4 * length ch + (if b then 0 else 1) + phase_work k

  -- Every step leaves less to do.
  pub work-Step : (r s : Run T W) → Step execute r s → work s < work r
  work-Step _ _ (send t q ch k c w h) = omega (arith, length-append ch (t ∷ []))
  work-Step _ _ (close ch k c w) = omega arith
  work-Step _ _ (receive t q ch b c w) = omega arith
  work-Step _ _ (succeed t q ch b c w v e) = omega arith
  work-Step _ _ (fail t q ch b c w v x e) = omega arith
  work-Step _ _ (divert t q ch tq b e c w) = omega arith
  work-Step _ _ (drained q c w) = omega arith
  work-Step _ _ (diverted q tq e c w) = omega arith

  abbrev IsCompleted : Run T W → Type 0
  IsCompleted (run q ch b (completed r) c w) = Unit
  IsCompleted (run q ch b receiving c w) = ⊥
  IsCompleted (run q ch b (executing t) c w) = ⊥
  IsCompleted (run q ch b (diverting tq e) c w) = ⊥

  -- A state in which the goroutine has not ended has a next step.
  step_or_IsCompleted : (r : Run T W) → IsCompleted r ⊎ ((s : Run T W) × Step execute r s)
  step_or_IsCompleted (run q ch b (completed r) c w) = inl tt
  step_or_IsCompleted (run q ch b (executing t) c w) = elim (Option-cases ((execute t w).0)) [
    | inl e ↦ inr (_, succeed t q ch b c w (execute t w).1 (ap (λ x. (x, (execute t w).1)) e))
    | inr (x, e) ↦ inr (_, fail t q ch b c w (execute t w).1 x (ap (λ x. (x, (execute t w).1)) e))
  ]
  step_or_IsCompleted (run q (t ∷ ch) b receiving c w) = inr (_, receive t q ch b c w)
  step_or_IsCompleted (run q [] true receiving c w) = inr (_, drained q c w)
  step_or_IsCompleted (run [] [] false receiving c w) = inr (_, close [] receiving c w)
  step_or_IsCompleted (run (t ∷ q) [] false receiving c w) =
      inr (_, send t q [] receiving c w (omega arith))
  step_or_IsCompleted (run q (t ∷ ch) b (diverting tq e) c w) = inr (_, divert t q ch tq b e c w)
  step_or_IsCompleted (run q [] true (diverting tq e) c w) = inr (_, diverted q tq e c w)
  step_or_IsCompleted (run [] [] false (diverting tq e) c w) =
      inr (_, close [] (diverting tq e) c w)
  step_or_IsCompleted (run (t ∷ q) [] false (diverting tq e) c w) =
      inr (_, send t q [] (diverting tq e) c w (omega arith))

  -- From a state that was reached, an end can be reached, by no more steps than there is work.
  end_of :
      (fuel : ℕ) (r s : Run T W)
      → work s ≤ fuel
      → Steps execute r s
      → (u : Run T W) × IsCompleted u × Steps execute r u
  end_of zero r s h steps = elim (step_or_IsCompleted s) [
    | inl over ↦ (s, over, steps)
    | inr (u, step) ↦ absurd (omega (arith, h, work-Step s u step))
  ]
  end_of (suc n) r s h steps = elim (step_or_IsCompleted s) [
    | inl over ↦ (s, over, steps)
    | inr (u, step) ↦ end_of n r u (omega (arith, h, work-Step s u step)) (on r s u steps step)
  ]

  Steps-trans : (r s u : Run T W) → Steps execute r s → Steps execute s u → Steps execute r u
  Steps-trans r s _ first (here _) = first
  Steps-trans r s _ first (on _ m u rest step) = on r m u (Steps-trans r s m first rest) step

  -- However far an execution has gone, every step leaves less work, so that it does not go on for ever,
  -- and it can be brought to its end, with the result and the world of running the tasks in order.
  pub Steps-end :
      (ts : List T) (c : Option T) (w : W) (r : Run T W)
      → Steps execute (begun execute ts c w) r
      → ((s : Run T W) → Step execute r s → work s < work r)
        × ((ch : List T) × (c' : Option T) × Steps execute r
              (run [] ch true (completed (run_all execute ts w).0) c' (run_all execute ts w).1))
  Steps-end ts c w r steps = (work-Step r, at_end (end_of (work r) r r (omega arith) (here r)))
    where
      at_end :
          ((u : Run T W) × IsCompleted u × Steps execute r u)
          → (ch : List T) × (c' : Option T) × Steps execute r
              (run [] ch true (completed (run_all execute ts w).0) c' (run_all execute ts w).1)
      at_end (run q ch b receiving c' v, never, rest) = absurd never
      at_end (run q ch b (executing t) c' v, never, rest) = absurd never
      at_end (run q ch b (diverting tq e) c' v, never, rest) = absurd never
      at_end (run q ch b (completed result) c' v, over, rest) =
          let (same, empty, closed) =
            Steps-run_all execute ts c w q ch b result c' v
              (Steps-trans (begun execute ts c w) r _ steps rest) in
          (
            ch,
            c',
            subst
                (λ (x : Option (TaskQueue T × GoError T) × W).
                  Steps execute r (run [] ch true (completed x.0) c' x.1))
                same
                (subst (λ q. Steps execute r (run q ch true (completed result) c' v)) empty
                  (subst (λ b. Steps execute r (run q ch b (completed result) c' v)) closed rest)),
          )
