-- ===== src/Pools/Gke/Retry.antt =====
-- How the loop around a request to GKE ends.
use cluster_turndown.Prelude.{
  ℕ, zero, suc, ◌≤◌, ◌<◌, String, ◌≡◌, ◌∙◌, inl, inr, Bool, true, false, not, Option, none, some,
  arith, Bool-cases, Error,
}
use cluster_turndown.Pools.Gke.{CallError, is_retriable_error, retry}

-- An answer after which the loop ends by itself.
abbrev pub is_final : Option CallError → Bool
is_final none = true
is_final (some e) = not (is_retriable_error e)

abbrev pub plain : Option CallError → Option Error
plain none = none
plain (some e) = some e.error

module _ {W : Type 0} (request : W → Option CallError × W) where
  -- The world before the request with a number, from 0, and that all the requests before it are to be repeated.
  abbrev pub before_request : ℕ → W → W
  before_request zero w = w
  before_request (suc k) w = before_request k (request w).1

  abbrev pub Repeated : ℕ → W → Type 0
  Repeated zero w = Unit
  Repeated (suc k) w = (is_final (request w).0 ≡ false) × Repeated k (request w).1

module _ {W : Type 0} (request : W → Option CallError × W) (cancelled : String) (busy : W → ℕ)
    (less : (w : W) → is_final (request w).0 ≡ false → busy (request w).1 < busy w) where
  retry_final :
      (n : ℕ) (w : W)
      → is_final (request w).0 ≡ true
      → retry request cancelled n w ≡ (plain (request w).0, (request w).1)
  unfolding retry
  retry_final zero w h = ground (arith, h)
  retry_final (suc n) w h = ground (arith, h)

  retry_again :
      (n : ℕ) (w : W)
      → is_final (request w).0 ≡ false
      → retry request cancelled (suc n) w ≡ retry request cancelled n (request w).1
  unfolding retry
  retry_again n w h = ground (arith, h)

  -- With no fewer waits than a bound on how often the server is busy, which each answer that is to be repeated
  -- takes down, the loop is not cancelled: after a number of requests that are all to be repeated comes one
  -- that is not, and the loop returns its answer, in the world that this request leaves.
  pub retry-final :
      (n : ℕ) (w : W)
      → busy w ≤ n
      → (k : ℕ) × (k ≤ n)
        × Repeated request k w
        × (is_final (request (before_request request k w)).0 ≡ true)
        × (retry request cancelled n w ≡ (
          plain (request (before_request request k w)).0,
          (request (before_request request k w)).1,
        ))
  retry-final zero w h = elim (Bool-cases (is_final (request w).0)) [
    | inl last ↦ (0, omega arith, tt, last, retry_final zero w last)
    | inr again ↦ absurd (omega (arith, less w again, h))
  ]
  retry-final (suc n) w h = elim (Bool-cases (is_final (request w).0)) [
    | inl last ↦ (0, omega arith, tt, last, retry_final (suc n) w last)
    | inr again ↦
        let (k, few, all, last, same) =
          retry-final n (request w).1 (omega (arith, less w again, h)) in
        (suc k, omega (arith, few), (again, all), last, retry_again n w again ∙ same)
  ]
