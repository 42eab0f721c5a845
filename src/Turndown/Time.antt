-- ===== src/Turndown/Time.antt =====
-- Go's `time.Time` and `time.Duration`: an instant is a number of nanoseconds from a fixed one, and a
-- duration is an int64 of nanoseconds, which `Sub` saturates and sums wrap.
use cluster_turndown.Prelude.{
  ℕ, ◌+◌, ◌-◌, ◌^◌, ◌≤◌, ◌≡◌, Bool, arith, ltb, if◌then◌else◌, ℤ, pos, negsuc, ◌+ℤ◌, ◌-ℤ◌, ◌≤ℤ◌,
  ltb_ℤ,
}

abbrev pub Time : Type 0
Time = ℤ

abbrev pub Duration : Type 0
Duration = ℤ

abbrev pub minute : Duration
minute = pos 60_000_000_000

abbrev pub minutes_5 : Duration
minutes_5 = pos 300_000_000_000

abbrev pub minutes_20 : Duration
minutes_20 = pos 1_200_000_000_000

abbrev pub hours_24 : Duration
hours_24 = pos 86_400_000_000_000

abbrev pub days_7 : Duration
days_7 = pos 604_800_000_000_000

-- The greatest duration is `2 ^ 63 - 1` nanoseconds, the least is `-2 ^ 63`.
abbrev pub max_duration : ℕ
max_duration = 2 ^ 63 - 1

saturate : ℤ → Duration
saturate (pos n) = if ltb max_duration n then pos max_duration else pos n
saturate (negsuc n) = if ltb max_duration n then negsuc max_duration else negsuc n

wrap : ℤ → Duration
wrap (pos n) = if ltb max_duration n then pos n -ℤ pos (2 ^ 64) else pos n
wrap (negsuc n) = if ltb max_duration n then negsuc n +ℤ pos (2 ^ 64) else negsuc n

-- `t.Sub(u)`
unfoldable pub time_sub : Time → Time → Duration
unfolding saturate
time_sub t u = saturate (t -ℤ u)

-- The sum of two durations.
unfoldable pub duration_add : Duration → Duration → Duration
unfolding wrap
duration_add a b = wrap (a +ℤ b)

-- `t.Add(d)`
abbrev pub time_add : Time → Duration → Time
time_add t d = t +ℤ d

-- `t.Before(u)`, `t.After(u)`
abbrev pub is_before : Time → Time → Bool
is_before t u = ltb_ℤ t u

abbrev pub is_after : Time → Time → Bool
is_after t u = ltb_ℤ u t

-- A difference of less than 292 years is exact.
pub time_sub_exact : (t u : Time) → u ≤ℤ t → t ≤ℤ u +ℤ pos max_duration → time_sub t u ≡ t -ℤ u
unfolding time_sub ◌-ℤ◌ ◌+ℤ◌
time_sub_exact t u h k = ground arith

pub duration_add_exact :
    (m n : ℕ) → m + n ≤ max_duration → duration_add (pos m) (pos n) ≡ pos (m + n)
unfolding duration_add ◌+ℤ◌
duration_add_exact m n h = ground arith
