-- ===== src/Pools/Range/RoundTrip.antt =====
-- The sizes of a pool, written to the text of its tag and read back.
use cluster_turndown.Prelude.{◌≡◌, ap, ◌∙◌, some, [], ◌∷◌, arith, ℤ}
use cluster_turndown.Strconv.{format_int, split}
use cluster_turndown.Strconv.RoundTrip.{IsInt32, atoi-format_int, to_int32_exact}
use cluster_turndown.Strconv.Parts.{Lacks, split_lacking, split-append, Lacks-format_int}
use cluster_turndown.Pools.Range.{or_count, expand_parts, flat_range, expand_range}

slash_free : (z : ℤ) → Lacks b'/' (format_int z)
slash_free z = Lacks-format_int b'/' z (omega arith) (λ e. omega (arith, e))

split-flat_range :
    (min max count : ℤ)
    → split (flat_range min max count) b'/'
      ≡ format_int min ∷ format_int max ∷ format_int count ∷ []
unfolding flat_range
split-flat_range min max count =
    split-append "/" (format_int min) _ (slash_free min)
    ∙ ap (λ ps. format_int min ∷ ps)
        (split-append "/" (format_int max) _ (slash_free max)
          ∙ ap (λ ps. format_int max ∷ ps)
              (split_lacking b'/' (format_int count) (slash_free count)))

-- Three int32 numbers are read back from the text of the range, without a panic.
pub expand_range-flat_range :
    (min max count : ℤ)
    → IsInt32 min
    → IsInt32 max
    → IsInt32 count
    → expand_range (flat_range min max count) ≡ some (min, max, count)
unfolding expand_range expand_parts or_count
expand_range-flat_range min max count a b c = rw (split-flat_range min max count) (
    simp (
      expand_parts,
      atoi-format_int count c,
      atoi-format_int min a,
      atoi-format_int max b,
      to_int32_exact min a,
      to_int32_exact max b,
      to_int32_exact count c,
    ))
