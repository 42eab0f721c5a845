-- ===== src/Strconv/Parts.antt =====
-- Splitting a text at a separator that its first part lacks.
use Prim.Native.Char.{Char, code}
use Prim.Native.String.{◌++◌ as str_append}
use text.Mathlib.TextLemmas.{nil-append, cons-append}
use cluster_turndown.Prelude.{
  ℕ, zero, suc, ◌/◌, ◌%◌, ◌<◌, String, ◌≡◌, refl, sym, ◌≢◌, inl, inr, [], ◌∷◌, arith, ltb,
  Bool-cases, ℤ, pos, negsuc,
}
use cluster_turndown.Strconv.{digit_char, digits, format_int, put_first, split}
use cluster_turndown.Strconv.RoundTrip.{digit_char-code}

-- No character of the text has this code.
abbrev pub Lacks : ℕ → String → Type 0
Lacks sep String.[] = Unit {0}
Lacks sep (String.◌∷◌ c s) = (code c ≢ sep) × Lacks sep s

pub split_lacking : (sep : ℕ) (s : String) → Lacks sep s → split s sep ≡ s ∷ []
unfolding split put_first
split_lacking sep String.[] h = refl
split_lacking sep (String.◌∷◌ c s) (other, h) = ground (arith, other, split_lacking sep s h)

pub split-append :
    (c : Char) (s t : String)
    → Lacks (code c) s
    → split (str_append s (String.◌∷◌ c t)) (code c) ≡ s ∷ split t (code c)
unfolding split put_first
split-append c String.[] t h = rw nil-append (ground arith)
split-append c (String.◌∷◌ d s) t (other, h) =
    rw cons-append (ground (arith, other, split-append c s t h))

Lacks-digits :
    (sep fuel n : ℕ) (out : String) → sep < b'0' → Lacks sep out → Lacks sep (digits fuel n out)
unfolding digits
Lacks-digits sep zero n out low h = h
Lacks-digits sep (suc fuel) n out low h =
    let next : Lacks sep (String.◌∷◌ (digit_char (n % 10)) out) =
      (λ e. omega (arith, e, low, digit_char-code (n % 10)), h) in
    elim (Bool-cases (ltb n 10)) [
      | inl small ↦ rw small next
      | inr large ↦ rw large (Lacks-digits sep fuel (n / 10) _ low next)
    ]

-- A decimal text has no character below the digits but the sign.
pub Lacks-format_int : (sep : ℕ) (z : ℤ) → sep < b'0' → sep ≢ b'-' → Lacks sep (format_int z)
unfolding format_int
Lacks-format_int sep (pos n) low sign = Lacks-digits sep (suc n) n "" low tt
Lacks-format_int sep (negsuc n) low sign =
    (λ e. sign (sym e), Lacks-digits sep (suc (suc n)) (suc n) "" low tt)
