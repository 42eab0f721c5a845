-- ===== src/Turndown/Store.antt =====
-- pkg/turndown/schedulestore.go: the two stores, over what they call of the cluster and of the disk.
pub mod RoundTrip
use cluster_turndown.Prelude.{
  String, Bool, Option, none, some, List, str_eq, if◌then◌else◌, find?, GoMap, Error, error, Result,
  ok, err,
}
use cluster_turndown.Turndown.Time.{Time}
use cluster_turndown.Turndown.Schedule.{Schedule, ScheduleStore}

-- pkg/apis/turndownschedule/v1alpha1/types.go
pub record TurndownScheduleStatus : Type 0 where
  pub state : String
  pub last_updated : Time
  pub current : String
  pub scale_down_id : String
  pub scale_down_time : Time
  pub scale_down_metadata : GoMap String
  pub scale_up_id : String
  pub scale_up_time : Time
  pub scale_up_metadata : GoMap String

pub record TurndownSchedule : Type 0 where
  pub name : String
  pub start : Time
  pub end : Time
  pub repeat : String
  pub is_deleted : Bool  -- it has a deletion timestamp
  pub finalizers : List String
  pub status : TurndownScheduleStatus

-- What the store calls of the generated client set, and the clock.
pub record ScheduleClient (W : Type 0) : Type 0 where
  pub list : W → Result (List TurndownSchedule)
  pub update_status : TurndownSchedule → W → Result TurndownSchedule × W
  pub now : W → Time

abbrev pub schedule_state_success : String
schedule_state_success = "ScheduleSuccess"

abbrev pub schedule_state_completed : String
schedule_state_completed = "ScheduleCompleted"

abbrev pub no_schedule_err : Error
no_schedule_err = error "No schedule exists"

-- `WriteSchedule`: every field is written.
pub write_schedule : TurndownScheduleStatus → Schedule
write_schedule status = record {
  current = status.current;
  scale_down_id = status.scale_down_id;
  scale_down_time = status.scale_down_time;
  scale_down_metadata = status.scale_down_metadata;
  scale_up_id = status.scale_up_id;
  scale_up_time = status.scale_up_time;
  scale_up_metadata = status.scale_up_metadata;
}

-- `WriteScheduleStatus`: every field but the state is written.
unfoldable pub write_schedule_status :
    Time → TurndownScheduleStatus → Schedule → TurndownScheduleStatus
write_schedule_status now status s = record {
  state = status.state;
  last_updated = now;
  current = s.current;
  scale_down_id = s.scale_down_id;
  scale_down_time = s.scale_down_time;
  scale_down_metadata = s.scale_down_metadata;
  scale_up_id = s.scale_up_id;
  scale_up_time = s.scale_up_time;
  scale_up_metadata = s.scale_up_metadata;
}

abbrev pub is_success : TurndownSchedule → Bool
is_success td = str_eq td.status.state schedule_state_success

module _ {W : Type 0} (c : ScheduleClient W) where
  pub get_schedule : W → Result Schedule
  unfolding write_schedule
  get_schedule w = elim (c.list w) [
    | err e ↦ err e
    | ok tds ↦ elim (find? is_success tds) [
      | none ↦ err no_schedule_err
      | some td ↦ ok (write_schedule td.status)
    ]
  ]

  create : Schedule → W → Option Error × W
  create s w = (none, w)

  pub send_status : TurndownSchedule → W → Option Error × W
  send_status td w =
      let (answer, v) = c.update_status td w in
      (elim answer [ err e ↦ some e | ok stored ↦ none ], v)

  -- Updating by the nil pointer panics where a status is written.
  pub update : Option Schedule → W → Option (Option Error × W)
  unfolding write_schedule_status send_status
  update schedule w = elim (c.list w) [
    | err e ↦ some (some e, w)
    | ok tds ↦ elim (find? is_success tds) [
      | none ↦ some (some no_schedule_err, w)
      | some td ↦ elim schedule [
        | none ↦ none
        | some s ↦
            some
              (send_status (record td { status = write_schedule_status (c.now w) td.status s }) w)
      ]
    ]
  ]

  pub complete : W → W
  complete w = elim (c.list w) [
    | err e ↦ w
    | ok tds ↦ elim (find? is_success tds) [
      | none ↦ w
      | some td ↦
          (c.update_status
            (record td {
              status = record td.status {
                state = schedule_state_completed;
                last_updated = c.now w;
              };
            })
            w).1
    ]
  ]

  pub clear : W → W
  unfolding complete
  clear w = complete w

  unfoldable pub kubernetes_schedule_store : ScheduleStore W
  unfolding get_schedule create update complete clear
  kubernetes_schedule_store = record {
    get_schedule = get_schedule;
    create = create;
    update = update;
    complete = complete;
    clear = clear;
  }

-- What the disk store calls of the file system and of encoding/json.
pub record Disk (W : Type 0) : Type 1 where
  pub Bytes : Type 0
  pub file_exists : W → Bool
  pub read_file : W → Result Bytes
  pub write_file : Bytes → W → Option Error × W
  pub remove : W → W
  pub marshal : Option Schedule → Result Bytes
  pub unmarshal : Bytes → Result Schedule

module _ {W : Type 0} (d : Disk W) where
  pub disk_get_schedule : W → Result Schedule
  disk_get_schedule w =
      if d.file_exists w
      then elim (d.read_file w) [
        | err e ↦ err no_schedule_err
        | ok data_read ↦ d.unmarshal data_read
      ]
      else err no_schedule_err

  pub disk_update : Option Schedule → W → Option Error × W
  disk_update schedule w = elim (d.marshal schedule) [
    | err e ↦ (some e, w)
    | ok data_written ↦ d.write_file data_written w
  ]

  pub disk_create : Schedule → W → Option Error × W
  unfolding disk_update
  disk_create s w = disk_update (some s) w

  pub disk_clear : W → W
  disk_clear w = if d.file_exists w then d.remove w else w

  pub disk_complete : W → W
  unfolding disk_clear
  disk_complete w = disk_clear w
