-- ===== src/Turndown/Scheduler/Restoring.antt =====
-- Taking up a stored schedule again after a restart.
use cluster_turndown.Prelude.{
  ◌-◌, ◌≡◌, refl, ◌∙◌, inl, inr, arith, str_eq, if◌then◌else◌, Bool-cases, pos, ◌+ℤ◌, ◌-ℤ◌, ◌≤ℤ◌,
}
use cluster_turndown.Turndown.Time.{
  Time, minute, max_duration, time_sub, duration_add, time_add, is_before,
}
use cluster_turndown.Turndown.Request.{type_scale_down}
use cluster_turndown.Turndown.Schedule.{Schedule}
use cluster_turndown.Turndown.Scheduler.{missed, restored_times}

-- A time that was missed, by less than 292 years, is moved to a minute from now.
missed-add :
    (now t : Time)
    → now ≤ℤ t +ℤ pos (max_duration - 60_000_000_000)
    → time_add t (missed now t) ≡ (if is_before t now then time_add now minute else t)
unfolding missed time_sub duration_add ◌-ℤ◌ ◌+ℤ◌
missed-add now t h = ground arith

-- The time of the job that comes next.
abbrev pub due : Schedule → Time → Time → Time
due s down up = if str_eq s.current type_scale_down then down else up

moved_together : (a b d : Time) → time_add b d -ℤ time_add a d ≡ b -ℤ a
unfolding ◌-ℤ◌ ◌+ℤ◌
moved_together a b d = ground arith

due-moved :
    (s : Schedule) (d : Time)
    → due s (time_add s.scale_down_time d) (time_add s.scale_up_time d)
      ≡ time_add (due s s.scale_down_time s.scale_up_time) d
due-moved s d = elim (Bool-cases (str_eq s.current type_scale_down)) [
  | inl e ↦ rw (e) refl
  | inr e ↦ rw (e) refl
]

-- The two times of a stored schedule are moved together: the time between them stays, and the job that
-- comes next keeps its time, or is moved to a minute from now if that time was missed.
pub restored_times_lem :
    (now : Time) (s : Schedule)
    → now ≤ℤ due s s.scale_down_time s.scale_up_time +ℤ pos (max_duration - 60_000_000_000)
    → let (down, up) = restored_times now s in
      let t = due s s.scale_down_time s.scale_up_time in
      (up -ℤ down ≡ s.scale_up_time -ℤ s.scale_down_time)
      × (due s down up ≡ (if is_before t now then time_add now minute else t))
unfolding restored_times
restored_times_lem now s h =
    let t = due s s.scale_down_time s.scale_up_time in
    (
      moved_together s.scale_down_time s.scale_up_time (missed now t),
      due-moved s (missed now t) ∙ missed-add now t h,
    )
