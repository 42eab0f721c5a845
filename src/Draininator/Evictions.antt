-- ===== src/Draininator/Evictions.antt =====
-- pkg/cluster/draininator.go and pkg/cluster/helper/helper.go: one goroutine for each pod evicts it and
-- waits for it to be gone. A schedule says which goroutine makes the next of its calls, until the timeout.
pub mod Patience
use cluster_turndown.Prelude.{
  ℕ, zero, suc, String, Bool, true, false, not, ◌&&◌, ◌||◌, Option, none, some, List, [], ◌∷◌,
  str_eq, if◌then◌else◌, Error, is_not_found, is_too_many_requests,
}
use cluster_turndown.Tasks.Goroutines.{select_wait}
use cluster_turndown.Draininator.{Pod, Eviction, PodClient, Draininator}

unfoldable pub pod_eviction_for : Pod → String → ℕ → Eviction
pod_eviction_for p version seconds = record {
  api_version = version;
  namespace = p.namespace;
  name = p.name;
  grace_period_seconds = seconds;
}

-- The condition that `WaitUntilPodDeleted` polls: met, or an error, which ends the poll as well.
unfoldable pub is_deleted : Pod → Option Pod → Option Error → Bool × Option Error
is_deleted p found failed =
    let missing : Bool = elim failed [ none ↦ false | some e ↦ is_not_found e ] in
    let replaced : Bool = elim found [ none ↦ false | some q ↦ not (str_eq q.uid p.uid) ] in
    if missing || replaced then (true, none) else (false, failed)

-- Where a goroutine stands: in the loop of the eviction, in the poll, or done.
pub data Stage : Type 0 where
  evicting polling finished : Stage

pub record Worker : Type 0 where
  pub pod : Pod
  pub stage : Stage

-- What the answer to an eviction makes of the loop: too many requests are tried again.
unfoldable pub after_eviction : Option Error → Stage
after_eviction none = polling
after_eviction (some e) =
    if is_not_found e then finished else if not (is_too_many_requests e) then finished else evicting

unfoldable pub after_poll : Bool × Option Error → Stage
after_poll (met, failed) =
    if met then finished else elim failed [ some e ↦ finished | none ↦ polling ]

module _ {W : Type 0} (c : PodClient W) (seconds : ℕ) (version : String) where
  -- One call of a goroutine.
  unfoldable pub call_from : Stage → Pod → W → Stage × W
  unfolding pod_eviction_for is_deleted after_eviction after_poll
  call_from evicting p w =
      let (failed, w') = c.evict (pod_eviction_for p version seconds) w in
      (after_eviction failed, w')
  call_from polling p w =
      let ((found, failed), w') = c.get_pod p.namespace p.name w in
      (after_poll (is_deleted p found failed), w')
  call_from finished p w = (finished, w)

  unfoldable pub call_at : ℕ → List Worker → W → List Worker × W
  unfolding call_from
  call_at n [] w = ([], w)
  call_at zero (x ∷ xs) w =
      let (stage', w') = call_from x.stage x.pod w in (record x { stage = stage' } ∷ xs, w')
  call_at (suc n) (x ∷ xs) w = let (xs', w') = call_at n xs w in (x ∷ xs', w')

  unfoldable pub run_workers : List ℕ → List Worker → W → List Worker × W
  unfolding call_at
  run_workers [] xs w = (xs, w)
  run_workers (n ∷ ns) xs w = let (xs', w') = call_at n xs w in run_workers ns xs' w'

abbrev pub started : Stage → List Pod → List Worker
started stage [] = []
started stage (p ∷ ps) = record { pod = p; stage = stage } ∷ started stage ps

abbrev pub is_finished_stage : Stage → Bool
is_finished_stage finished = true
is_finished_stage evicting = false
is_finished_stage polling = false

unfoldable pub all_finished : List Worker → Bool
all_finished [] = true
all_finished (x ∷ xs) = is_finished_stage x.stage && all_finished xs

module _ {W : Type 0} (c : PodClient W) where
  -- `is_nil` says whether `Wait` returned no channel, here and below.
  unfoldable pub evict_pods : Draininator → Bool → List ℕ → List Pod → String → W → Option Error × W
  unfolding run_workers all_finished select_wait
  evict_pods d is_nil schedule pods version w =
      let (workers, w') =
        run_workers c d.grace_period_seconds version schedule (started evicting pods) w in
      (select_wait is_nil (all_finished workers) "Timed out while attempting to evict pods.", w')

  -- The loop of the deletions; an error ends it.
  unfoldable pub request_deletions : Draininator → List Pod → W → Option Error × W
  request_deletions d [] w = (none, w)
  request_deletions d (p ∷ ps) w =
      let (failed, w') = c.delete_pod p.namespace p.name d.grace_period_seconds w in
      let later = request_deletions d ps w' in
      elim failed [ none ↦ later | some e ↦ if not (is_not_found e) then (some e, w') else later ]

  -- The polls are run after the deletions.
  unfoldable pub delete_pods : Draininator → Bool → List ℕ → List Pod → W → Option Error × W
  unfolding request_deletions run_workers all_finished select_wait
  delete_pods d is_nil schedule pods w =
      let (failed, w₁) = request_deletions d pods w in
      elim failed [
        | some e ↦ (some e, w₁)
        | none ↦
            let (workers, w₂) =
              run_workers c d.grace_period_seconds "" schedule (started polling pods) w₁ in
            (
              select_wait is_nil (all_finished workers)
                  "Timed out while attempting to delete pods.",
              w₂,
            )
      ]
