-- ===== src/Turndown/Request/Exact.antt =====
-- Which requests `validateSchedule` accepts, against a description that does not compute a difference.
use cluster_turndown.Prelude.{
  ℕ, ◌≤◌, ◌<◌, String, ◌≡◌, ◌↔◌, ◌⊎◌, inl, inr, false, none, arith, eq_iff, pos, ◌+ℤ◌, ◌-ℤ◌, ◌≤ℤ◌,
  ltb_ℤ, +ℤ_parts,
}
use cluster_turndown.Turndown.Time.{Time, minutes_20, hours_24, days_7, max_duration, time_sub}
use cluster_turndown.Turndown.Request.{
  repeat_none, repeat_daily, repeat_weekly, fixup_repeat_type, validate_schedule, validated,
  is_after,
}

-- Comparing a saturated difference with a duration is comparing the instants.
time_sub-lt :
    (t u : Time) (k : ℕ) → k ≤ max_duration → ltb_ℤ (time_sub t u) (pos k) ≡ ltb_ℤ t (u +ℤ pos k)
unfolding time_sub ◌-ℤ◌ ◌+ℤ◌
time_sub-lt t u k h = ground arith

lt-time_sub :
    (t u : Time) (k : ℕ) → k < max_duration → ltb_ℤ (pos k) (time_sub t u) ≡ ltb_ℤ (u +ℤ pos k) t
unfolding time_sub ◌-ℤ◌ ◌+ℤ◌
lt-time_sub t u k h = ground arith

-- The latest end that a repeat type allows.
abbrev pub EndsBy : Time → Time → String → Type 0
EndsBy from to r =
    (r ≡ repeat_none)
    ⊎ ((r ≡ repeat_daily) × (to ≤ℤ from +ℤ hours_24))
    ⊎ ((r ≡ repeat_weekly) × (to ≤ℤ from +ℤ days_7))

pub record IsValid (now from to : Time) (r : String) : Type 0 where
  pub apart : from +ℤ minutes_20 ≤ℤ to
  pub ahead : now ≤ℤ from
  pub ends : EndsBy from to r

-- The tests on the times pass.
times_pass :
    (now from to : Time) (r fixed : String)
    → IsValid now from to fixed
    → (ltb_ℤ (time_sub to from) (pos 0) ≡ false)
      × (ltb_ℤ (time_sub to from) minutes_20 ≡ false)
      × (is_after now from ≡ false)
times_pass now from to r fixed v = ground (
  arith,
  v.apart,
  v.ahead,
  +ℤ_parts from (pos 0),
  +ℤ_parts from minutes_20,
  time_sub-lt to from 0,
  time_sub-lt to from 1_200_000_000_000,
)

validated-accepts :
    (now from to : Time) (r fixed : String)
    → IsValid now from to fixed
    → (validated now from to r fixed).0 ≡ none
unfolding validated
validated-accepts now from to r fixed v =
    let passed = times_pass now from to r fixed v in
    elim (v.ends) [
      | inl e ↦ rw (e, passed.0, passed.1, passed.2)
      | inr (inl (e, h)) ↦
          rw (e, passed.0, passed.1, passed.2)
            (ground (arith, h, lt-time_sub to from 86_400_000_000_000))
      | inr (inr (e, h)) ↦
          rw (e, passed.0, passed.1, passed.2)
            (ground (arith, h, lt-time_sub to from 604_800_000_000_000))
    ]

validated-eq_none :
    (now from to : Time) (r fixed : String)
    → ((validated now from to r fixed).0 ≡ none) ↔ IsValid now from to fixed
unfolding validated
validated-eq_none now from to r fixed = (
  λ h. record {
    apart = ground (arith, h, time_sub-lt to from 1_200_000_000_000);
    ahead = ground (arith, h);
    ends = ground (
      arith,
      h,
      lt-time_sub to from 86_400_000_000_000,
      lt-time_sub to from 604_800_000_000_000,
      eq_iff repeat_none fixed,
      eq_iff repeat_daily fixed,
      eq_iff repeat_weekly fixed,
    );
  },
  λ v. validated-accepts now from to r fixed v,
)

-- What the repeat type of an accepted request is fixed up to.
validated-repeat :
    (now from to : Time) (r fixed : String)
    → (validated now from to r fixed).0 ≡ none
    → (validated now from to r fixed).1 ≡ fixed
unfolding validated
validated-repeat now from to r fixed h = ground arith

-- A request is accepted exactly when its times are at least 20 minutes apart, it does not start in the
-- past, and its repeat type in lower case, the empty one read as none, is known and no shorter than the
-- time between them.
pub validate_schedule-eq_none :
    (now from to : Time) (r : String)
    → ((validate_schedule now from to r).0 ≡ none) ↔ IsValid now from to (fixup_repeat_type r)
unfolding validate_schedule
validate_schedule-eq_none now from to r = validated-eq_none now from to r (fixup_repeat_type r)

pub validate_schedule-repeat :
    (now from to : Time) (r : String)
    → (validate_schedule now from to r).0 ≡ none
    → validate_schedule now from to r ≡ (none, fixup_repeat_type r)
unfolding validate_schedule
validate_schedule-repeat now from to r h =
    ground (arith, h, validated-repeat now from to r (fixup_repeat_type r))
