-- ===== src/Prelude/Errors.antt =====
-- Go's `error`, and the results of functions that may return one.
use Prim.Native.String.{String}
use mathlib.Core.Path.{◌≡◌, refl}
use mathlib.Core.Logic.{◌⊎◌, inl, inr}
use mathlib.Core.Bool.{Bool, true, false}

-- What the Kubernetes client's `errors.IsNotFound` and `errors.IsTooManyRequests` read of an error.
pub data Reason : Type 0 where
  not_found too_many_requests unknown : Reason

pub record Error : Type 0 where
  pub message : String
  pub reason : Reason

-- `errors.New`, `fmt.Errorf`
abbrev pub error : String → Error
error m = record { message = m; reason = Reason.unknown }

abbrev pub is_not_found : Error → Bool
is_not_found e = elim (e.reason) [ Reason.not_found ↦ true | _ ↦ false ]

abbrev pub is_too_many_requests : Error → Bool
is_too_many_requests e = elim (e.reason) [ Reason.too_many_requests ↦ true | _ ↦ false ]

pub data Result {ℓ} (A : Type ℓ) : Type ℓ where
  ok : A → Result A
  err : Error → Result A

infixl 5 ◌>>=◌
abbrev pub ◌>>=◌ {ℓ κ} : {A : Type ℓ} {B : Type κ} → Result A → (A → Result B) → Result B
ok a >>= f = f a
err e >>= f = err e

pub Result-cases {ℓ} :
    {A : Type ℓ} (r : Result A) → ((a : A) × (r ≡ ok a)) ⊎ ((e : Error) × (r ≡ err e))
Result-cases (ok a) = inl (a, refl)
Result-cases (err e) = inr (e, refl)
