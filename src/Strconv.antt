-- ===== src/Strconv.antt =====
-- What the program uses of Go's `strconv`, `fmt` and `strings`: decimal integers, Booleans as text, and
-- the folding of letters, which is modelled on the ASCII letters.
pub mod RoundTrip
pub mod Parts
pub mod Find
use Prim.Native.Char.{Char, code}
use cluster_turndown.Prelude.{
  ℕ, zero, suc, ◌+◌, ◌-◌, ◌*◌, ◌/◌, ◌%◌, ◌^◌, String, Bool, true, false, ◌&&◌, ◌||◌, Option, none,
  some, List, [], ◌∷◌, str_eq, ltb, leb, ◌==◌, if◌then◌else◌, ℤ, pos, negsuc,
}

-- The character of a decimal digit.
unfoldable pub digit_char : ℕ → Char
digit_char zero = "0"
digit_char (suc zero) = "1"
digit_char (suc (suc zero)) = "2"
digit_char (suc (suc (suc zero))) = "3"
digit_char (suc (suc (suc (suc zero)))) = "4"
digit_char (suc (suc (suc (suc (suc zero))))) = "5"
digit_char (suc (suc (suc (suc (suc (suc zero)))))) = "6"
digit_char (suc (suc (suc (suc (suc (suc (suc zero))))))) = "7"
digit_char (suc (suc (suc (suc (suc (suc (suc (suc zero)))))))) = "8"
digit_char _ = "9"

-- The digits of a number in front of a text; the fuel bounds the number of rounds.
unfoldable pub digits : ℕ → ℕ → String → String
digits zero n out = out
digits (suc fuel) n out =
    let out' = String.◌∷◌ (digit_char (n % 10)) out in
    let rest = digits fuel (n / 10) out' in if ltb n 10 then out' else rest

-- `fmt.Sprintf("%d", z)`: a number `n` has at most `n + 1` digits.
unfoldable pub format_int : ℤ → String
unfolding digits digit_char
format_int (pos n) = digits (suc n) n ""
format_int (negsuc n) = String.◌∷◌ "-" (digits (suc (suc n)) (suc n) "")

-- The digits that are left to read, and what was read so far.
unfoldable pub scan : String → ℕ → Option ℕ
scan String.[] acc = some acc
scan (String.◌∷◌ c s) acc =
    if leb b'0' (code c) && leb (code c) b'9' then scan s (acc * 10 + (code c - b'0')) else none

unfoldable pub scan_nonempty : String → Option ℕ
unfolding scan
scan_nonempty String.[] = none
scan_nonempty (String.◌∷◌ c s) = scan (String.◌∷◌ c s) 0

-- A magnitude below a limit; of the least negative value it is the limit itself.
unfoldable pub bounded_pos : ℕ → Option ℕ → Option ℤ
bounded_pos limit none = none
bounded_pos limit (some n) = if ltb n limit then some (pos n) else none

unfoldable pub bounded_neg : ℕ → Option ℕ → Option ℤ
bounded_neg limit none = none
bounded_neg limit (some zero) = some (pos 0)
bounded_neg limit (some (suc n)) = if ltb n limit then some (negsuc n) else none

-- An optional sign, digits, and a value in the range; `none` is an error.
unfoldable pub parse_below : ℕ → String → Option ℤ
unfolding scan_nonempty bounded_pos bounded_neg
parse_below limit String.[] = none
parse_below limit (String.◌∷◌ c s) =
    if code c == b'+'
    then bounded_pos limit (scan_nonempty s)
    else if code c == b'-'
    then bounded_neg limit (scan_nonempty s)
    else bounded_pos limit (scan_nonempty (String.◌∷◌ c s))

-- `strconv.ParseInt(s, 10, 32)`
unfoldable pub parse_int : String → Option ℤ
unfolding parse_below
parse_int s = parse_below (2 ^ 31) s

-- `strconv.Atoi`, where an int has 64 bits.
unfoldable pub atoi : String → Option ℤ
unfolding parse_below
atoi s = parse_below (2 ^ 63) s

-- `int32(z)`
unfoldable pub to_int32 : ℤ → ℤ
to_int32 (pos n) = let m = n % 2 ^ 32 in if ltb m (2 ^ 31) then pos m else negsuc (2 ^ 32 - 1 - m)
to_int32 (negsuc n) =
    let m = n % 2 ^ 32 in if ltb m (2 ^ 31) then negsuc m else pos (2 ^ 32 - 1 - m)

-- `fmt.Sprintf("%t", b)`
unfoldable pub format_bool : Bool → String
format_bool true = "true"
format_bool false = "false"

is_one_of : List String → String → Bool
is_one_of [] s = false
is_one_of (t ∷ ts) s = str_eq t s || is_one_of ts s

-- `strconv.ParseBool`; `none` is an error.
unfoldable pub parse_bool : String → Option Bool
unfolding is_one_of
parse_bool s =
    if is_one_of ("1" ∷ "t" ∷ "T" ∷ "true" ∷ "TRUE" ∷ "True" ∷ []) s
    then some true
    else if is_one_of ("0" ∷ "f" ∷ "F" ∷ "false" ∷ "FALSE" ∷ "False" ∷ []) s
    then some false
    else none

-- A letter's lower case, for the ASCII letters; other characters stay.
to_lower_from : String → String → Char → Char
to_lower_from String.[] _ c = c
to_lower_from (String.◌∷◌ u us) String.[] c = c
to_lower_from (String.◌∷◌ u us) (String.◌∷◌ l ls) c =
    if code c == code u then l else to_lower_from us ls c

-- `strings.ToLower`
unfoldable pub to_lower : String → String
unfolding to_lower_from
to_lower String.[] = ""
to_lower (String.◌∷◌ c s) =
    String.◌∷◌ (to_lower_from "ABCDEFGHIJKLMNOPQRSTUVWXYZ" "abcdefghijklmnopqrstuvwxyz" c)
      (to_lower s)

-- The character in front of the first of the parts.
unfoldable pub put_first : Char → List String → List String
put_first c [] = String.◌∷◌ c "" ∷ []
put_first c (part ∷ parts) = String.◌∷◌ c part ∷ parts

-- `strings.Split` at a separator of one byte: there is always a part.
unfoldable pub split : String → ℕ → List String
unfolding put_first
split String.[] sep = "" ∷ []
split (String.◌∷◌ c s) sep =
    let rest = split s sep in if code c == sep then "" ∷ rest else put_first c rest

-- `strings.EqualFold`
unfoldable pub equal_fold : String → String → Bool
unfolding to_lower
equal_fold s t = str_eq (to_lower s) (to_lower t)
