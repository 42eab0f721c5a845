-- ===== src/Strconv/RoundTrip.antt =====
-- Integers and Booleans are read back from what is printed for them.
use Prim.Native.Char.{code}
use cluster_turndown.Prelude.{
  ℕ, zero, suc, ◌+◌, ◌/◌, ◌%◌, ◌^◌, ◌≤◌, ◌<◌, String, ◌≡◌, refl, ◌∙◌, inl, inr, Bool, true, false,
  some, arith, ltb, lt→ltb, Bool-cases, ℤ, pos, negsuc,
}
use cluster_turndown.Strconv.{
  digit_char, digits, format_int, scan, scan_nonempty, bounded_pos, bounded_neg, parse_below,
  parse_int, atoi, to_int32, format_bool, parse_bool,
}

pub digit_char-code : (d : ℕ) → d < 10 → code (digit_char d) ≡ d + b'0'
unfolding digit_char
digit_char-code zero h = refl
digit_char-code (suc zero) h = refl
digit_char-code (suc (suc zero)) h = refl
digit_char-code (suc (suc (suc zero))) h = refl
digit_char-code (suc (suc (suc (suc zero)))) h = refl
digit_char-code (suc (suc (suc (suc (suc zero))))) h = refl
digit_char-code (suc (suc (suc (suc (suc (suc zero)))))) h = refl
digit_char-code (suc (suc (suc (suc (suc (suc (suc zero))))))) h = refl
digit_char-code (suc (suc (suc (suc (suc (suc (suc (suc zero)))))))) h = refl
digit_char-code (suc (suc (suc (suc (suc (suc (suc (suc (suc n))))))))) h = omega arith

-- Reading the digits of a number gives the number, then what follows is read on.
scan-digits : (fuel n : ℕ) (out : String) → n < fuel → scan (digits fuel n out) 0 ≡ scan out n
unfolding scan digits
scan-digits zero n out h = elim h [ ]
scan-digits (suc fuel) n out h = elim (Bool-cases (ltb n 10)) [
  | inl small ↦ rw small (ground (arith, digit_char-code (n % 10)))
  | inr large ↦ rw large (
      scan-digits fuel (n / 10) (String.◌∷◌ (digit_char (n % 10)) out) (ground arith)
      ∙ ground (arith, digit_char-code (n % 10)))
]

-- The first of them is a digit.
abbrev StartsWithDigit : String → Type 0
StartsWithDigit String.[] = ⊥
StartsWithDigit (String.◌∷◌ c s) = b'0' ≤ code c

digits-StartsWithDigit :
    (fuel n : ℕ) (out : String) → n < fuel → StartsWithDigit (digits fuel n out)
unfolding digits
digits-StartsWithDigit zero n out h = elim h [ ]
digits-StartsWithDigit (suc fuel) n out h = elim (Bool-cases (ltb n 10)) [
  | inl small ↦ rw small (omega (arith, digit_char-code (n % 10)))
  | inr large ↦ rw large (digits-StartsWithDigit fuel (n / 10) _ (ground arith))
]

scan_nonempty_digit : (s : String) → StartsWithDigit s → scan_nonempty s ≡ scan s 0
unfolding scan_nonempty
scan_nonempty_digit String.[] h = elim h [ ]
scan_nonempty_digit (String.◌∷◌ c s) h = refl

parse_below_digit :
    (limit : ℕ) (s : String)
    → StartsWithDigit s
    → parse_below limit s ≡ bounded_pos limit (scan s 0)
unfolding parse_below
parse_below_digit limit String.[] h = elim h [ ]
parse_below_digit limit (String.◌∷◌ c s) h = ground arith

-- An integer in the range of an int32.
abbrev pub IsInt32 : ℤ → Type 0
IsInt32 (pos n) = n < 2 ^ 31
IsInt32 (negsuc n) = n < 2 ^ 31

scan-digits_end : (n : ℕ) → scan (digits (suc n) n "") 0 ≡ some n
unfolding scan
scan-digits_end n = scan-digits (suc n) n "" (omega arith)

-- The magnitude of an integer, less one if it is negative.
abbrev pub IsBelow : ℕ → ℤ → Type 0
IsBelow limit (pos n) = n < limit
IsBelow limit (negsuc n) = n < limit

parse_below-format_int :
    (limit : ℕ) (z : ℤ) → IsBelow limit z → parse_below limit (format_int z) ≡ some z
parse_below-format_int limit (pos n) h =
    unfold format_int in
    parse_below_digit limit (digits (suc n) n "")
      (digits-StartsWithDigit (suc n) n "" (omega arith))
    ∙ rw (scan-digits_end n) (unfold bounded_pos in rw (lt→ltb n limit h))
parse_below-format_int limit (negsuc n) h =
    unfold parse_below format_int in
    rw
      (
        scan_nonempty_digit (digits (suc (suc n)) (suc n) "")
            (digits-StartsWithDigit (suc (suc n)) (suc n) "" (omega arith)),
        scan-digits_end (suc n),
      )
      (unfold bounded_neg in rw (lt→ltb n limit h))

-- An int32 is read back from its decimal text.
pub parse_int-format_int : (z : ℤ) → IsInt32 z → parse_int (format_int z) ≡ some z
unfolding parse_int
parse_int-format_int z h = parse_below-format_int (2 ^ 31) z (IsInt32-IsBelow z h)
  where
    IsInt32-IsBelow : (z : ℤ) → IsInt32 z → IsBelow (2 ^ 31) z
    IsInt32-IsBelow (pos n) h = h
    IsInt32-IsBelow (negsuc n) h = h

pub atoi-format_int : (z : ℤ) → IsInt32 z → atoi (format_int z) ≡ some z
unfolding atoi
atoi-format_int z h = parse_below-format_int (2 ^ 63) z (IsInt32-IsBelow z h)
  where
    IsInt32-IsBelow : (z : ℤ) → IsInt32 z → IsBelow (2 ^ 63) z
    IsInt32-IsBelow (pos n) h = omega arith
    IsInt32-IsBelow (negsuc n) h = omega arith

pub to_int32_exact : (z : ℤ) → IsInt32 z → to_int32 z ≡ z
unfolding to_int32
to_int32_exact (pos n) h = ground arith
to_int32_exact (negsuc n) h = ground arith

-- A Boolean is read back from its text.
pub parse_bool-format_bool : (b : Bool) → parse_bool (format_bool b) ≡ some b
unfolding parse_bool format_bool
parse_bool-format_bool true = refl
parse_bool-format_bool false = refl
