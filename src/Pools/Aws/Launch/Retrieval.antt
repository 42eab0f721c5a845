-- ===== src/Pools/Aws/Launch/Retrieval.antt =====
-- pkg/cluster/provider/awsclusterprovider.go: the loop that waits for a new launch configuration.
use cluster_turndown.Prelude.{
  ℕ, zero, suc, ◌<◌, String, ◌≡◌, refl, ◌∙◌, inl, inr, false, none, some, List, [], ◌∷◌, arith, ok,
  Result-cases,
}
use cluster_turndown.Pools.Aws.{LaunchConfiguration}
use cluster_turndown.Pools.Aws.Launch.{AwsMaker, is_launch_configuration, retrieve}

module _ {W : Type 0} (c : AwsMaker W) (name : String) where
  -- The world after a number of waits.
  abbrev pub after_sleeps : ℕ → W → W
  after_sleeps zero w = w
  after_sleeps (suc k) w = after_sleeps k (c.sleep w)

  -- In this world there is no such launch configuration, or asking for it fails.
  abbrev pub IsUnready : W → Type 0
  IsUnready w = is_launch_configuration c name w ≡ false

  retrieve-waits :
      (retries : ℕ) (w : W)
      → IsUnready w
      → retrieve c (suc retries) name w ≡ retrieve c retries name (c.sleep w)
  unfolding retrieve is_launch_configuration
  retrieve-waits retries w h =
      elim (Result-cases (c.describe_launch_configurations (name ∷ []) w)) [
        | inl ([], e) ↦ rw (retrieve, e) refl
        | inl (lc ∷ lcs, e) ↦ ground (arith, h, e)
        | inr (f, e) ↦ rw (retrieve, e) refl
      ]

  -- The loop finds a launch configuration at the first description that shows it, after as many waits as
  -- there were descriptions before, if it shows up within the number of descriptions that are made; if none
  -- of them shows it, the loop ends without one after as many waits as descriptions.
  pub retrieve-shown :
      (retries k : ℕ) (w : W) (lc : LaunchConfiguration) (lcs : List LaunchConfiguration)
      → k < retries
      → ((j : ℕ) → j < k → IsUnready (after_sleeps j w))
      → c.describe_launch_configurations (name ∷ []) (after_sleeps k w) ≡ ok (lc ∷ lcs)
      → retrieve c retries name w ≡ (some lc, after_sleeps k w)
  unfolding retrieve
  retrieve-shown zero k w lc lcs less before shown = ground (arith, less)
  retrieve-shown (suc retries) zero w lc lcs less before shown = rw (retrieve, shown) refl
  retrieve-shown (suc retries) (suc k) w lc lcs less before shown =
      retrieve-waits retries w (before 0 (omega arith))
      ∙ retrieve-shown retries k (c.sleep w) lc lcs (omega (arith, less))
          (λ j under. before (suc j) (omega (arith, under))) shown

  pub retrieve-missing :
      (retries : ℕ) (w : W)
      → ((j : ℕ) → j < retries → IsUnready (after_sleeps j w))
      → retrieve c retries name w ≡ (none, after_sleeps retries w)
  unfolding retrieve
  retrieve-missing zero w missing = refl
  retrieve-missing (suc retries) w missing =
      retrieve-waits retries w (missing 0 (omega arith))
      ∙ retrieve-missing retries (c.sleep w) (λ j under. missing (suc j) (omega (arith, under)))
