-- ===== src/Tasks/Goroutines.antt =====
-- The loops of pkg/cluster/provider, pkg/turndown/provider and pkg/cluster/draininator.go that start one goroutine
-- for each element of a list and wait for all of them, or for a timeout, by the channel of pkg/async/async.go.
pub mod Ends
use cluster_turndown.Prelude.{
  ℕ, zero, suc, String, Bool, not, ◌&&◌, Option, none, some, List, [], ◌∷◌, if◌then◌else◌, Error,
  error,
}

-- The `select` on the channel of `Wait` and a timer. `is_nil` says that `Wait` returned no channel, since the
-- group was done and the channel was closed and reset before it was read; the timer is then all that is waited
-- for.
unfoldable pub select_wait : Bool → Bool → String → Option Error
select_wait is_nil all_done timed_out =
    if all_done && not is_nil then none else some (error timed_out)

module _ {ℓ} {A : Type ℓ} where
  -- The element at a place, and the others.
  unfoldable pub take_at : ℕ → List A → Option (A × List A)
  take_at n [] = none
  take_at zero (x ∷ xs) = some (x, xs)
  take_at (suc n) (x ∷ xs) = elim (take_at n xs) [
    | none ↦ none
    | some (y, rest) ↦ some (y, x ∷ rest)
  ]

  -- Those whose goroutines end in time, in the order of their calls, and those that are left: each number is a
  -- place among the goroutines that are left, so that every goroutine ends at most once.
  unfoldable pub ended : List ℕ → List A → List A × List A
  unfolding take_at
  ended [] xs = ([], xs)
  ended (n ∷ ns) xs = elim (take_at n xs) [
    | none ↦ ended ns xs
    | some (x, rest) ↦ let (done, left) = ended ns rest in (x ∷ done, left)
  ]
