-- ===== src/Turndown/Store/RoundTrip.antt =====
-- What is written to a store is what is read from it.
use cluster_turndown.Turndown.Time.{Time}
use cluster_turndown.Prelude.{
  ◌+◌, ◌-◌, ◌%◌, String, ◌≡◌, refl, ◌⊎◌, inl, inr, true, none, some, List, [], ◌∷◌, map, arith,
  str_eq, eq_iff, if◌then◌else◌, Bool-cases, find?, pos, negsuc, GoMap, ok,
}
use cluster_turndown.Turndown.Schedule.{Schedule}
use cluster_turndown.Turndown.Store.{
  TurndownScheduleStatus, send_status, TurndownSchedule, ScheduleClient, write_schedule,
  write_schedule_status, is_success, get_schedule, update,
}

-- What comes back of a value that is sent as JSON: a time has whole seconds, and an empty map is left out.
pub whole_seconds : Time → Time
whole_seconds (pos n) = pos (n - n % 1_000_000_000)
whole_seconds (negsuc n) = negsuc (n + (999_999_999 - n % 1_000_000_000))

pub left_out : GoMap String → GoMap String
left_out none = none
left_out (some []) = none
left_out (some (e ∷ es)) = some (e ∷ es)

-- Of a status.
pub returned_status : TurndownScheduleStatus → TurndownScheduleStatus
returned_status s = record s {
  last_updated = whole_seconds s.last_updated;
  scale_down_time = whole_seconds s.scale_down_time;
  scale_down_metadata = left_out s.scale_down_metadata;
  scale_up_time = whole_seconds s.scale_up_time;
  scale_up_metadata = left_out s.scale_up_metadata;
}

-- And of a schedule that is written into one.
pub returned : Schedule → Schedule
returned s = record s {
  scale_down_time = whole_seconds s.scale_down_time;
  scale_down_metadata = left_out s.scale_down_metadata;
  scale_up_time = whole_seconds s.scale_up_time;
  scale_up_metadata = left_out s.scale_up_metadata;
}

pub Listed : String → List TurndownSchedule → Type 0
Listed name [] = ⊥
Listed name (o ∷ tds) = (o.name ≡ name) ⊎ Listed name tds

-- The client set serves the resources `objects w`: it lists them, and the update of the status of one that is
-- there puts it in the place of those of its name, as it is sent.
abbrev pub replaced : TurndownSchedule → TurndownSchedule → TurndownSchedule
replaced td o = if str_eq o.name td.name then td else o

pub record ServesSchedules {W : Type 0} (c : ScheduleClient W) (objects : W → List TurndownSchedule)
    : Type 0 where
  pub lists : (w : W) → c.list w ≡ ok (objects w)
  pub updates :
      (td : TurndownSchedule) (w : W)
      → Listed td.name (objects w)
      → let new = record td { status = returned_status td.status } in
        let (answer, v) = c.update_status td w in
        (answer ≡ ok new) × (objects v ≡ map (replaced new) (objects w))

module _ (td new : TurndownSchedule) where
  find?-replaced :
      (tds : List TurndownSchedule)
      → find? is_success tds ≡ some td
      → new.name ≡ td.name
      → is_success new ≡ true
      → find? is_success (map (replaced new) tds) ≡ some new
  find?-replaced [] h n t = ground (arith, h)
  find?-replaced (o ∷ tds) h n t = elim (Bool-cases (is_success o)) [
    | inl first ↦ ground (arith, h, n, t, first, eq_iff o.name new.name)
    | inr skipped ↦
        let rest : find? is_success (map (replaced new) tds) ≡ some new =
          find?-replaced tds (ground (arith, h, skipped)) n t in
        ground (arith, t, skipped, eq_iff o.name new.name, rest)
  ]

  -- The resource that is found is in the state of success.
  find?-is_success :
      (tds : List TurndownSchedule) → find? is_success tds ≡ some td → is_success td ≡ true
  find?-is_success [] h = ground (arith, h)
  find?-is_success (o ∷ tds) h = elim (Bool-cases (is_success o)) [
    | inl first ↦ ground (arith, h, first)
    | inr skipped ↦ find?-is_success tds (ground (arith, h, skipped))
  ]

find?-Listed :
    (td : TurndownSchedule) (tds : List TurndownSchedule)
    → find? is_success tds ≡ some td
    → Listed td.name tds
unfolding Listed
find?-Listed td [] h = ground (arith, h)
find?-Listed td (o ∷ tds) h = elim (Bool-cases (is_success o)) [
  | inl first ↦ inl (ground (arith, h, first))
  | inr skipped ↦ inr (find?-Listed td tds (ground (arith, h, skipped)))
]

module _ {W : Type 0} (c : ScheduleClient W) (objects : W → List TurndownSchedule)
    (serves : ServesSchedules c objects) where
  -- When a resource is in the state of success, and the cluster lists the resources and takes the status of
  -- one that is there, an update does not panic and returns no error, and what it saved is read again, with
  -- its two times cut to whole seconds and metadata that is an empty map read as none.
  pub get_schedule-update :
      (s : Schedule) (td : TurndownSchedule) (w : W)
      → find? is_success (objects w) ≡ some td
      → (v : W) × (update c (some s) w ≡ some (none, v)) × (get_schedule c v ≡ ok (returned s))
  unfolding update get_schedule write_schedule write_schedule_status send_status returned
      returned_status
  get_schedule-update s td w e =
      let sent : TurndownSchedule = record td {
        status = write_schedule_status (c.now w) td.status s;
      } in
      let new : TurndownSchedule = record sent { status = returned_status sent.status } in
      let (answered, stored) = serves.updates sent w (find?-Listed td (objects w) e) in
      let found =
        find?-replaced td new (objects w) e refl (find?-is_success td new (objects w) e) in
      (
        (c.update_status sent w).1,
        simp (update, send_status, serves.lists w, e, answered),
        simp (get_schedule, serves.lists, stored, found),
      )
