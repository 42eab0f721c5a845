-- ===== src/Turndown/Endpoints.antt =====
-- pkg/turndown/turndownendpoints.go: the HTTP handlers. The encoding of JSON, the client set, the wait of
-- the library and the manager are parameters; the headers of the answer are left out.
pub mod Answers
use Prim.Native.String.{◌++◌ as str_append}
use cluster_turndown.Prelude.{
  String, Bool, true, false, Option, none, some, List, [], ◌∷◌, str_eq, if◌then◌else◌, Error,
  Result, ok, err,
}
use cluster_turndown.Turndown.Time.{Time}
use cluster_turndown.Turndown.Request.{repeat_none}
use cluster_turndown.Turndown.Schedule.{Schedule}
use cluster_turndown.Turndown.Store.{TurndownSchedule, schedule_state_success}
use cluster_turndown.Turndown.Controller.{turndown_schedule_finalizer}

pub record ScheduleTurndownRequest : Type 0 where
  pub start : Time
  pub end : Time
  pub repeat : String

-- The resource that a request makes.
pub record NewSchedule : Type 0 where
  pub generate_name : String
  pub finalizers : List String
  pub start : Time
  pub end : Time
  pub repeat : String

pub record HttpRequest (B : Type 0) : Type 0 where
  pub method : String
  pub body : Result B

-- What is written to the answer; `empty` is nothing.
pub data Response (B : Type 0) : Type 0 where
  schedule_data : Option Schedule → Response B
  bytes : B → Response B
  bad_request : String → Response B
  internal_server_error : String → Response B
  not_found_answer : Response B
  empty : Response B

-- `schedules_*` are the calls of the client set, `poll_immediate` is the wait of one second at a time for
-- thirty, and `none` is a panic.
pub record TurndownEndpoints (W B : Type 0) : Type 0 where
  pub schedules_list : W → Result (List TurndownSchedule)
  pub schedules_create : NewSchedule → W → Option Error × W
  pub schedules_delete : String → W → Option Error × W
  pub get_schedule : W → Option Schedule
  pub poll_immediate : (W → Bool) → W → Option Error × W
  pub unmarshal : B → Result ScheduleTurndownRequest
  pub marshal : Option Schedule → Result B
  pub is_running_on_turndown_node : W → Bool × Option Error
  pub prepare_turndown_environment : W → Option (Option Error × W)

-- `protocol.InternalServerError(fmt.Sprintf("...: %s", err))`
failed_to : {B : Type 0} → String → Error → Response B
failed_to what e = internal_server_error (str_append what (str_append ": " e.message))

unfoldable pub new_schedule : ScheduleTurndownRequest → NewSchedule
new_schedule r = record {
  generate_name = "scheduled-turndown-";
  finalizers = turndown_schedule_finalizer ∷ [];
  start = r.start;
  end = r.end;
  repeat = if str_eq r.repeat "" then repeat_none else r.repeat;
}

has_some : {A : Type 0} → Option A → Bool
has_some none = false
has_some (some a) = true

-- The first resource in the state of success.
unfoldable pub to_cancel : List TurndownSchedule → Option TurndownSchedule
to_cancel [] = none
to_cancel (td ∷ tds) =
    if str_eq td.status.state schedule_state_success then some td else to_cancel tds

module _ {W B : Type 0} (te : TurndownEndpoints W B) where
  -- The answer once the controller has taken the resource up.
  unfoldable pub answer_schedule : W → Response B × W
  unfolding has_some failed_to
  answer_schedule w =
      let (failed, w') = te.poll_immediate (λ v. has_some (te.get_schedule v)) w in
      elim failed [
        | some e ↦ (failed_to "Failed to get schedule" e, w')
        | none ↦ elim (te.marshal (te.get_schedule w')) [
          | err e ↦ (failed_to "Failed to marshal result" e, w')
          | ok b ↦ (bytes b, w')
        ]
      ]

  unfoldable pub start_schedule : Result B → W → Response B × W
  unfolding answer_schedule new_schedule failed_to
  start_schedule (err e) w = (bad_request (str_append "Failed to read request body: " e.message), w)
  start_schedule (ok data') w = elim (te.unmarshal data') [
    | err e ↦ (failed_to "Failed to unmarshal request" e, w)
    | ok request ↦ elim (te.get_schedule w) [
      | some s ↦ (internal_server_error "Schedule already exists", w)
      | none ↦
          let (failed, w₁) = te.schedules_create (new_schedule request) w in
          elim failed [
            | some e ↦ (failed_to "Failed to create schedule" e, w₁)
            | none ↦ answer_schedule w₁
          ]
    ]
  ]

  unfoldable pub handle_start_schedule : HttpRequest B → W → Response B × W
  unfolding start_schedule
  handle_start_schedule r w =
      if str_eq r.method "GET"
      then (schedule_data (te.get_schedule w), w)
      else if str_eq r.method "POST"
      then start_schedule r.body w
      else (not_found_answer, w)

  unfoldable pub handle_cancel_schedule : W → Response B × W
  unfolding to_cancel failed_to
  handle_cancel_schedule w = elim (te.schedules_list w) [
    | err e ↦ (failed_to "Failed to list schedules" e, w)
    | ok items ↦ elim (to_cancel items) [
      | none ↦ (empty, w)
      | some td ↦
          let (failed, w') = te.schedules_delete td.name w in
          elim failed [
            | some e ↦ (failed_to "Failed to delete schedule" e, w')
            | none ↦ (empty, w')
          ]
    ]
  ]

  unfoldable pub handle_init_environment : W → Option (Response B × W)
  unfolding failed_to
  handle_init_environment w =
      let (is_on_node, failed) = te.is_running_on_turndown_node w in
      elim failed [
        | some e ↦ some (failed_to "Failed to list nodes" e, w)
        | none ↦ if is_on_node then some (empty, w) else (elim (te.prepare_turndown_environment w) [
          | none ↦ none
          | some (none, w') ↦ some (empty, w')
          | some (some e, w') ↦ some (failed_to "Failed to prepare turndown environment" e, w')
        ])
      ]
