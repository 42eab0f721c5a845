-- ===== src/Strconv/Find.antt =====
-- What the program uses of Go's `strings` to find a text in another; an index counts the characters, which are
-- bytes in the texts of the ASCII characters.
use Prim.Native.Char.{code}
use cluster_turndown.Prelude.{
  ℕ, zero, suc, String, Bool, true, false, Option, none, some, ◌==◌, if◌then◌else◌,
}

-- `strings.HasPrefix`
unfoldable pub has_prefix : String → String → Bool
has_prefix s String.[] = true
has_prefix String.[] (String.◌∷◌ d p) = false
has_prefix (String.◌∷◌ c s) (String.◌∷◌ d p) =
    let rest = has_prefix s p in if code c == code d then rest else false

-- `strings.Index`; `none` is -1.
unfoldable pub index : String → String → Option ℕ
unfolding has_prefix
index String.[] sub = if has_prefix "" sub then some 0 else none
index (String.◌∷◌ c s) sub =
    let later = index s sub in
    if has_prefix (String.◌∷◌ c s) sub
    then some 0
    else (elim later [ none ↦ none | some i ↦ some (suc i) ])

-- `strings.Contains`
unfoldable pub contains : String → String → Bool
unfolding index
contains s sub = elim (index s sub) [ none ↦ false | some i ↦ true ]

-- `len(s)`
unfoldable pub text_length : String → ℕ
text_length String.[] = 0
text_length (String.◌∷◌ c s) = suc (text_length s)

-- `s[:n]` of a text that is long enough.
unfoldable pub take_bytes : ℕ → String → String
take_bytes zero s = ""
take_bytes (suc n) String.[] = ""
take_bytes (suc n) (String.◌∷◌ c s) = String.◌∷◌ c (take_bytes n s)
