-- ===== src/Draininator/Evictions/Patience.antt =====
-- When the goroutines that evict pods are done, for a server that puts them off only so often.
use cluster_turndown.Prelude.{
  ℕ, zero, suc, ◌+◌, ◌-◌, ◌≤◌, ◌<◌, String, ◌≡◌, refl, ap, ◌⊎◌, inl, inr, Bool, true, false, Option,
  none, some, List, [], ◌∷◌, arith, str_eq, ◌==◌, if◌then◌else◌, Error, is_too_many_requests,
}
use cluster_turndown.Tasks.Goroutines.{select_wait}
use cluster_turndown.Draininator.{Pod, Eviction, PodClient, Draininator}
use cluster_turndown.Draininator.Evictions.{
  pod_eviction_for, after_eviction, Stage, call_from, evicting, polling, finished, after_poll,
  is_deleted, Worker, call_at, run_workers, all_finished, started, evict_pods, is_finished_stage,
}

-- A pod that is shown, if any, is the one that was evicted.
abbrev pub IsSamePod : Pod → Option Pod → Type 0
IsSamePod p none = Unit
IsSamePod p (some q) = str_eq q.uid p.uid ≡ true

-- What is asked of the server: no request takes `patience` up, and it goes down for a pod where the server
-- turns its eviction away with too many requests, and where it shows the pod itself, without an error. So it
-- bounds how often the server still does either.
pub record IsPatient {W : Type 0} (c : PodClient W) (seconds : ℕ) (version : String)
    (patience : Pod → W → ℕ) : Type 0 where
  pub evict_others : (q : Pod) (e : Eviction) (w : W) → patience q (c.evict e w).1 ≤ patience q w
  pub get_others :
      (q : Pod) (namespace name : String) (w : W)
      → patience q (c.get_pod namespace name w).1 ≤ patience q w
  pub evicts :
      (p : Pod) (e : Error) (w : W)
      → is_too_many_requests e ≡ true
      → (c.evict (pod_eviction_for p version seconds) w).0 ≡ some e
      → patience p (c.evict (pod_eviction_for p version seconds) w).1 < patience p w
  pub polls :
      (p : Pod) (found : Option Pod) (w : W)
      → IsSamePod p found
      → (c.get_pod p.namespace p.name w).0 ≡ (found, none)
      → patience p (c.get_pod p.namespace p.name w).1 < patience p w

-- The calls of one goroutine in a schedule.
abbrev pub calls : ℕ → List ℕ → ℕ
calls k [] = 0
calls k (n ∷ ns) = if k == n then suc (calls k ns) else calls k ns

-- Every pod has two calls more than the answers that it may wait for; `b k` are those of goroutine k.
unfoldable pub Scheduled : {W : Type 0} → (Pod → W → ℕ) → (ℕ → ℕ) → List Pod → W → Type 0
Scheduled patience b [] w = Unit
Scheduled patience b (p ∷ ps) w =
    (patience p w + 2 ≤ b 0) × Scheduled patience (λ k. b (suc k)) ps w

module _ {W : Type 0} (c : PodClient W) (seconds : ℕ) (version : String) (patience : Pod → W → ℕ)
    (law : IsPatient c seconds version patience) where
  -- The calls that a goroutine may still need.
  left : Stage → Pod → W → ℕ
  left evicting p w = patience p w + 2
  left polling p w = patience p w + 1
  left finished p w = 0

  others :
      (p q : Pod) (s : Stage) (w : W)
      → patience q (call_from c seconds version s p w).1 ≤ patience q w
  unfolding call_from
  others p q evicting w = law.evict_others q (pod_eviction_for p version seconds) w
  others p q polling w = law.get_others q p.namespace p.name w
  others p q finished w = omega arith

  left-others :
      (s t : Stage) (p q : Pod) (w : W)
      → left s q (call_from c seconds version t p w).1 ≤ left s q w
  unfolding left
  left-others evicting t p q w = omega (arith, others p q t w)
  left-others polling t p q w = omega (arith, others p q t w)
  left-others finished t p q w = omega arith

  -- A pod is tried again after too many requests only, and polled again only while it is shown.
  again_busy :
      (answer : Option Error)
      → after_eviction answer ≡ evicting
      → (e : Error) × (answer ≡ some e) × (is_too_many_requests e ≡ true)
  unfolding after_eviction
  again_busy none h = absurd (cc h)
  again_busy (some e) h = (e, refl, ground (arith, h))

  again_there :
      (p : Pod) (found : Option Pod) (failed : Option Error)
      → after_poll (is_deleted p found failed) ≡ polling
      → IsSamePod p found × (failed ≡ none)
  unfolding after_poll is_deleted
  again_there p none none h = (tt, refl)
  again_there p (some q) none h = (ground (arith, h), refl)
  again_there p none (some e) h = absurd (ground (arith, h))
  again_there p (some q) (some e) h = absurd (ground (arith, h))

  Stage-cases : (s : Stage) → (s ≡ evicting) ⊎ (s ≡ polling) ⊎ (s ≡ finished)
  Stage-cases evicting = inl refl
  Stage-cases polling = inr (inl refl)
  Stage-cases finished = inr (inr refl)

  after_poll-cases :
      (r : Bool × Option Error) → (after_poll r ≡ polling) ⊎ (after_poll r ≡ finished)
  unfolding after_poll
  after_poll-cases (true, failed) = inr refl
  after_poll-cases (false, some e) = inr refl
  after_poll-cases (false, none) = inl refl

  -- The call of a goroutine that is not done uses up one of those that it may need.
  left-call_from :
      (s : Stage) (p : Pod) (w : W)
      → left (call_from c seconds version s p w).0 p (call_from c seconds version s p w).1
        ≤ left s p w - 1
  unfolding left call_from
  left-call_from evicting p w = elim (Stage-cases (call_from c seconds version evicting p w).0) [
    | inl busy ↦
        let (e, answer, many) =
          again_busy (c.evict (pod_eviction_for p version seconds) w).0 busy in
        rw busy (omega (arith, law.evicts p e w many answer))
    | inr (inl gone) ↦ rw gone (omega (arith, others p p evicting w))
    | inr (inr done) ↦ rw done (omega arith)
  ]
  left-call_from polling p w =
      elim (after_poll-cases
        (is_deleted p (c.get_pod p.namespace p.name w).0.0 (c.get_pod p.namespace p.name w).0.1)) [
          | inl there ↦
              let r = (c.get_pod p.namespace p.name w).0 in
              let (same, fine) = again_there p r.0 r.1 there in
              rw there
                (omega (arith, law.polls p r.0 w same (ap (λ (e : Option Error). (r.0, e)) fine)))
          | inr done ↦ rw done (omega arith)
        ]
  left-call_from finished p w = omega arith

  -- Goroutine k, counted from the head of the list, needs no more than `b k` calls.
  Enough : (ℕ → ℕ) → List Worker → W → Type 0
  unfolding left
  Enough b [] w = Unit
  Enough b (x ∷ xs) w = (left x.stage x.pod w ≤ b 0) × Enough (λ k. b (suc k)) xs w

  -- Fewer calls are needed later, of a goroutine that does not call too.
  Enough-others :
      (b b' : ℕ → ℕ) (xs : List Worker) (t : Stage) (p : Pod) (w : W)
      → ((k : ℕ) → b k ≤ b' k)
      → Enough b xs w
      → Enough b' xs (call_from c seconds version t p w).1
  unfolding Enough
  Enough-others b b' [] t p w h a = tt
  Enough-others b b' (x ∷ xs) t p w h a = (
    omega (arith, left-others x.stage t p x.pod w, h 0, a.0),
    Enough-others (λ k. b (suc k)) (λ k. b' (suc k)) xs t p w (λ k. h (suc k)) a.1,
  )

  left-call_at :
      (s : Stage) (q : Pod) (n : ℕ) (xs : List Worker) (w : W)
      → left s q (call_at c seconds version n xs w).1 ≤ left s q w
  unfolding call_at
  left-call_at s q n [] w = omega arith
  left-call_at s q zero (x ∷ xs) w = left-others s x.stage x.pod q w
  left-call_at s q (suc n) (x ∷ xs) w = left-call_at s q n xs w

  Enough-call_at :
      (n : ℕ) (b b' : ℕ → ℕ) (xs : List Worker) (w : W)
      → ((k : ℕ) → b k ≤ b' k + (if k == n then 1 else 0))
      → Enough b xs w
      → Enough b' (call_at c seconds version n xs w).0 (call_at c seconds version n xs w).1
  unfolding Enough call_at
  Enough-call_at n b b' [] w h a = tt
  Enough-call_at zero b b' (x ∷ xs) w h a = (
    omega (arith, left-call_from x.stage x.pod w, h 0, a.0),
    Enough-others (λ k. b (suc k)) (λ k. b' (suc k)) xs x.stage x.pod w
        (λ k. ground (arith, h (suc k))) a.1,
  )
  Enough-call_at (suc n) b b' (x ∷ xs) w h a = (
    ground (arith, left-call_at x.stage x.pod n xs w, h 0, a.0),
    Enough-call_at n (λ k. b (suc k)) (λ k. b' (suc k)) xs w (λ k. ground (arith, h (suc k))) a.1,
  )

  Enough-run_workers :
      (schedule : List ℕ) (xs : List Worker) (w : W)
      → Enough (λ k. calls k schedule) xs w
      → let (xs', w') = run_workers c seconds version schedule xs w in Enough (λ k. 0) xs' w'
  unfolding run_workers
  Enough-run_workers [] xs w a = a
  Enough-run_workers (n ∷ ns) xs w a =
      Enough-run_workers ns (call_at c seconds version n xs w).0
        (call_at c seconds version n xs w).1
        (Enough-call_at n (λ k. calls k (n ∷ ns)) (λ k. calls k ns) xs w (λ k. ground arith) a)

  is_finished_stage-left :
      (s : Stage) (p : Pod) (w : W) → left s p w ≤ 0 → is_finished_stage s ≡ true
  unfolding left
  is_finished_stage-left evicting p w h = absurd (omega (arith, h))
  is_finished_stage-left polling p w h = absurd (omega (arith, h))
  is_finished_stage-left finished p w h = refl

  Enough-all_finished : (xs : List Worker) (w : W) → Enough (λ k. 0) xs w → all_finished xs ≡ true
  unfolding Enough all_finished left
  Enough-all_finished [] w a = refl
  Enough-all_finished (x ∷ xs) w a =
      rw (is_finished_stage-left x.stage x.pod w a.0) (Enough-all_finished xs w a.1)

  Scheduled-Enough :
      (b : ℕ → ℕ) (ps : List Pod) (w : W)
      → Scheduled patience b ps w
      → Enough b (started evicting ps) w
  unfolding Scheduled Enough left
  Scheduled-Enough b [] w a = tt
  Scheduled-Enough b (p ∷ ps) w a = (a.0, Scheduled-Enough (λ k. b (suc k)) ps w a.1)

-- Over such a server, whatever the order in which the goroutines make their calls, if each has two calls more
-- than its pod's patience before the timeout, and `Wait` returns the channel rather than nil, there is no error:
-- every goroutine is done.
pub evict_pods-patient :
    {W : Type 0} (c : PodClient W) (d : Draininator) (version : String) (patience : Pod → W → ℕ)
    (law : IsPatient c d.grace_period_seconds version patience) (schedule : List ℕ)
    (pods : List Pod) (w : W)
    → Scheduled patience (λ k. calls k schedule) pods w
    → (evict_pods c d false schedule pods version w).0 ≡ none
unfolding evict_pods select_wait
evict_pods-patient c d version patience law schedule pods w a =
    let s = d.grace_period_seconds in
    rw
      (Enough-all_finished c s version patience law _ _ (
        Enough-run_workers c s version patience law schedule (started evicting pods) w
          (Scheduled-Enough c s version patience law (λ k. calls k schedule) pods w a)))
      refl
