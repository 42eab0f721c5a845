-- ===== src/Tasks/Goroutines/Ends.antt =====
-- Which goroutines of pkg/cluster/provider and pkg/turndown/provider end, by a description without places.
use cluster_turndown.Prelude.{ℕ, zero, suc, Option, none, some, List, [], ◌∷◌, All}
use cluster_turndown.Tasks.Goroutines.{take_at, ended}

-- An element with the others of a list, which keep their order.
pub data Taken {A : Type 0} (x : A) : List A → List A → Type 0 where
  is_first : {xs : List A} → Taken x xs (x ∷ xs)
  is_later : {y : A} {rest xs : List A} → Taken x rest xs → Taken x (y ∷ rest) (y ∷ xs)

-- Of a list, some elements end one after the other, and the others are left.
pub data Ends {A : Type 0} (left : List A) : List A → List A → Type 0 where
  all_done : Ends left left []
  one_done :
      {x : A} {xs rest done : List A}
      → Taken x rest xs
      → Ends left rest done
      → Ends left xs (x ∷ done)

module _ {A : Type 0} where
  abbrev Takes : List A → Option (A × List A) → Type 0
  Takes xs none = Unit
  Takes xs (some (x, rest)) = Taken x rest xs

  take_at-Takes : (n : ℕ) (xs : List A) → Takes xs (take_at n xs)
  unfolding take_at
  take_at-Takes n [] = tt
  take_at-Takes zero (x ∷ xs) = is_first
  take_at-Takes (suc n) (y ∷ ys) = behind (take_at n ys) (take_at-Takes n ys)
    where
      behind :
          (o : Option (A × List A))
          → Takes ys o
          → Takes (y ∷ ys) (elim o [ none ↦ none | some (x, rest) ↦ some (x, y ∷ rest) ])
      behind none t = tt
      behind (some (x, rest)) t = is_later t

  pub ended-Ends : (ns : List ℕ) (xs : List A) → Ends (ended ns xs).1 xs (ended ns xs).0
  unfolding ended
  ended-Ends [] xs = all_done
  ended-Ends (n ∷ ns) xs =
      elim (take_at n xs) as (λ o. Takes xs o → Ends (after o).1 xs (after o).0) [
        | none ↦ λ t. ended-Ends ns xs
        | some (x, rest) ↦ λ t. one_done t (ended-Ends ns rest)
      ]
        (take_at-Takes n xs)
    where
      after : Option (A × List A) → List A × List A
      after none = ended ns xs
      after (some (x, rest)) = let (done, left) = ended ns rest in (x ∷ done, left)

module _ {A : Type 0} (P : A → Type 0) where
  All-Taken : {x : A} {xs rest : List A} → Taken x rest xs → All P xs → P x × All P rest
  All-Taken is_first a = a
  All-Taken (is_later t) a = let (h, rest) = All-Taken t a.1 in (h, (a.0, rest))

  -- What holds of all holds of those that end.
  pub All-Ends : {left xs done : List A} → Ends left xs done → All P xs → All P done
  All-Ends all_done a = tt
  All-Ends (one_done t e) a = let (h, rest) = All-Taken t a in (h, All-Ends e rest)
