-- ===== src/Turndown/Schedule.antt =====
-- pkg/turndown/schedulestore.go: the schedule, and the store in which the current one is kept.
use cluster_turndown.Prelude.{String, Option, GoMap, Error, Result}
use cluster_turndown.Turndown.Time.{Time}

pub record Schedule : Type 0 where
  pub current : String
  pub scale_down_id : String
  pub scale_down_time : Time
  pub scale_down_metadata : GoMap String
  pub scale_up_id : String
  pub scale_up_time : Time
  pub scale_up_metadata : GoMap String

-- The interface `ScheduleStore` over a world `W`. Updating by the nil pointer may panic: `none`.
pub record ScheduleStore (W : Type 0) : Type 0 where
  pub get_schedule : W → Result Schedule
  pub create : Schedule → W → Option Error × W
  pub update : Option Schedule → W → Option (Option Error × W)
  pub complete : W → W
  pub clear : W → W
