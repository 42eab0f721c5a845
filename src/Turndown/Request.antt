-- ===== src/Turndown/Request.antt =====
-- pkg/turndown/turndownscheduler.go: the words of a schedule, and the validation of a request for one.
pub mod Exact
use cluster_turndown.Prelude.{
  String, ◌&&◌, Option, none, some, str_eq, if◌then◌else◌, pos, ltb_ℤ, Error, error,
}
use cluster_turndown.Strconv.{to_lower}
use cluster_turndown.Turndown.Time.{
  Time, Duration, minutes_20, hours_24, days_7, time_sub, is_after,
}

abbrev pub turndown_job_type : String
turndown_job_type = "type"

abbrev pub turndown_job_repeat : String
turndown_job_repeat = "repeat"

abbrev pub type_scale_down : String
type_scale_down = "scaledown"

abbrev pub type_scale_up : String
type_scale_up = "scaleup"

abbrev pub type_reset : String
type_reset = "reset"

abbrev pub repeat_none : String
repeat_none = "none"

abbrev pub repeat_daily : String
repeat_daily = "daily"

abbrev pub repeat_weekly : String
repeat_weekly = "weekly"

-- `repeatDurations`
unfoldable pub repeat_durations : String → Option Duration
repeat_durations r =
    if str_eq repeat_none r
    then some (pos 0)
    else if str_eq repeat_daily r
    then some hours_24
    else if str_eq repeat_weekly r
    then some days_7
    else none

abbrev pub cancelled_err : Error
cancelled_err = error "Cancelled"

abbrev pub environment_prepare_err : Error
environment_prepare_err = error "EnvironmentPrepare"

abbrev pub no_schedules_to_cancel_err : Error
no_schedules_to_cancel_err = error "No Schedules to Cancel"

abbrev pub cancel_while_running_err : Error
cancel_while_running_err = error "Cannot Cancel Turndown while Running"

abbrev pub single_schedule_err : Error
single_schedule_err = error "Currently, only a single turndown schedule is allowed."

-- `fixupRepeatType` for a pointer that is not nil: the text behind it afterwards.
unfoldable pub fixup_repeat_type : String → String
fixup_repeat_type r = to_lower (if str_eq r "" then repeat_none else r)

-- The tests of `validateSchedule`, for a repeat type and its fixed-up form: the error, and the repeat
-- type that the pointer shows afterwards, which is fixed up only where the tests on the times passed.
validated : Time → Time → Time → String → String → Option Error × String
unfolding repeat_durations
validated now from to repeat_type fixed =
    let delta = time_sub to from in
    if ltb_ℤ delta (pos 0)
    then (some (error "The end time was set to a time before the start parameter."), repeat_type)
    else if ltb_ℤ delta minutes_20
    then (some (error "The start time and end time must be at least 20 mins apart."), repeat_type)
    else if is_after now from
    then (some (error "The start time was set to a time in the past."), repeat_type)
    else elim (repeat_durations fixed) [
      | none ↦ (some (error "The Repeat Type is not a valid repeat type."), fixed)
      | some d ↦
          if ltb_ℤ (pos 0) d && ltb_ℤ d delta
          then (
            some (error "The total time between from and to is larger than the repeat duration."),
            fixed,
          )
          else (none, fixed)
    ]

unfoldable pub validate_schedule : Time → Time → Time → String → Option Error × String
unfolding validated
validate_schedule now from to repeat_type =
    validated now from to repeat_type (fixup_repeat_type repeat_type)
