-- ===== src/Pools/Range.antt =====
-- pkg/turndown/provider/awsprovider.go and eksprovider.go: the three sizes of a pool as the text of a tag.
pub mod RoundTrip
use Prim.Native.String.{◌++◌ as str_append}
use cluster_turndown.Prelude.{String, Option, none, some, List, [], ◌∷◌, ℤ, negsuc}
use cluster_turndown.Strconv.{format_int, atoi, to_int32, split}

unfoldable pub flat_range : ℤ → ℤ → ℤ → String
flat_range min max count =
    str_append (format_int min)
      (String.◌∷◌ "/" (str_append (format_int max) (String.◌∷◌ "/" (format_int count))))

-- A number that cannot be read is taken to be the count.
pub or_count : ℤ → Option ℤ → ℤ
or_count count none = count
or_count count (some z) = z

pub expand_parts : List String → Option (ℤ × ℤ × ℤ)
unfolding or_count
expand_parts [] = none
expand_parts (min ∷ []) = none
expand_parts (min ∷ max ∷ []) = none
expand_parts (min ∷ max ∷ n ∷ rest) = elim (atoi n) [
  | none ↦ some (negsuc 0, negsuc 0, negsuc 0)
  | some count ↦
      some
        (to_int32 (or_count count (atoi min)), to_int32 (or_count count (atoi max)), to_int32 count)
]

-- `expandRange`: minimum, maximum and count; `none` is the panic on a text of fewer than three parts.
unfoldable pub expand_range : String → Option (ℤ × ℤ × ℤ)
unfolding expand_parts
expand_range s = expand_parts (split s b'/')
