-- ===== src/Turndown/Endpoints/Answers.antt =====
-- What an answer of the HTTP handlers means.
use cluster_turndown.Prelude.{
  String, ◌≡◌, refl, sym, ap, ◌∙◌, ◌⊎◌, inl, inr, Bool, true, false, Option, none, some, List, [],
  ◌∷◌, ◌++◌, arith, str_eq, eq_iff, Bool-cases, Option-cases, All, Error, Result, ok, err, ◌>>=◌,
  Result-cases,
}
use cluster_turndown.Turndown.Schedule.{Schedule}
use cluster_turndown.Turndown.Store.{TurndownSchedule, schedule_state_success}
use cluster_turndown.Turndown.Endpoints.{
  to_cancel, new_schedule, handle_start_schedule, start_schedule, handle_cancel_schedule,
  HttpRequest, ScheduleTurndownRequest, TurndownEndpoints, answer_schedule, bytes, has_some,
  failed_to, empty, internal_server_error,
}

-- What the library says of the wait: without an error, the condition holds at its end.
abbrev pub Waits : {W : Type 0} → ((W → Bool) → W → Option Error × W) → Type 0
Waits {W} poll =
    (condition : W → Bool) (w : W)
    → (poll condition w).0 ≡ none
    → condition (poll condition w).1 ≡ true

module _ {W B : Type 0} (te : TurndownEndpoints W B) (waits : Waits te.poll_immediate) where
  has_some-some : {A : Type 0} (o : Option A) → has_some o ≡ true → (a : A) × (o ≡ some a)
  unfolding has_some
  has_some-some none h = absurd (cc h)
  has_some-some (some a) h = (a, refl)

  answer_schedule-bytes :
      (w w' : W) (b : B)
      → answer_schedule te w ≡ (bytes b, w')
      → (s : Schedule) × (te.get_schedule w' ≡ some s) × (te.marshal (some s) ≡ ok b)
  unfolding answer_schedule failed_to
  answer_schedule-bytes w w' b h =
      let r = te.poll_immediate (λ v. has_some (te.get_schedule v)) w in
      elim (Option-cases (r.0)) [
        | inr (e, failed) ↦ ground (arith, h, failed)
        | inl fine ↦ elim (Result-cases (te.marshal (te.get_schedule r.1))) [
          | inr (e, failed) ↦ ground (arith, h, fine, failed)
          | inl (b', made) ↦
              let at : r.1 ≡ w' = ground (arith, h, fine, made) in
              let same : b' ≡ b = ground (arith, h, fine, made) in
              let (s, present) = has_some-some (te.get_schedule r.1) (waits _ w fine) in
              (
                s,
                ap te.get_schedule (sym at) ∙ present,
                ap te.marshal (sym present) ∙ made ∙ ap ok same,
              )
        ]
      ]

  start_schedule-bytes :
      (body : Result B) (w w' : W) (b : B)
      → start_schedule te body w ≡ (bytes b, w')
      → ((asked : ScheduleTurndownRequest) × (body >>= te.unmarshal ≡ ok asked)
          × ((te.schedules_create (new_schedule asked) w).0 ≡ none))
        × (te.get_schedule w ≡ none)
        × ((s : Schedule) × (te.get_schedule w' ≡ some s) × (te.marshal (some s) ≡ ok b))
  unfolding start_schedule failed_to
  start_schedule-bytes (err e) w w' b h = ground (arith, h)
  start_schedule-bytes (ok data') w w' b h = elim (Result-cases (te.unmarshal data')) [
    | inr (e, failed) ↦ ground (arith, h, failed)
    | inl (asked, read) ↦ elim (Option-cases (te.get_schedule w)) [
      | inr (s, present) ↦ ground (arith, h, read, present)
      | inl absent ↦
          let (failed, w₁) = te.schedules_create (new_schedule asked) w in
          elim (Option-cases failed) [
            | inr (e, refused) ↦ ground (arith, h, read, absent, refused)
            | inl fine ↦ (
              (asked, read, fine),
              absent,
              answer_schedule-bytes w₁ w' b (simp (start_schedule, read, absent, fine) at h),
            )
          ]
    ]
  ]

  -- A request is answered with the encoding of a schedule only if it is a POST request for a schedule,
  -- there was no schedule before, the resource that it asks for was created without an error, and the
  -- encoding is that of the schedule that there is now, if the wait of the library only ends without an
  -- error where its condition holds.
  pub handle_start_schedule-bytes :
      (r : HttpRequest B) (w w' : W) (b : B)
      → handle_start_schedule te r w ≡ (bytes b, w')
      → (r.method ≡ "POST")
        × ((asked : ScheduleTurndownRequest) × (r.body >>= te.unmarshal ≡ ok asked)
            × ((te.schedules_create (new_schedule asked) w).0 ≡ none))
        × (te.get_schedule w ≡ none)
        × ((s : Schedule) × (te.get_schedule w' ≡ some s) × (te.marshal (some s) ≡ ok b))
  unfolding handle_start_schedule start_schedule failed_to
  handle_start_schedule-bytes r w w' b h = elim (Bool-cases (str_eq r.method "GET")) [
    | inl reads ↦ ground (arith, h, reads)
    | inr other ↦ elim (Bool-cases (str_eq r.method "POST")) [
      | inl posts ↦
          let (asked, absent, present) =
            start_schedule-bytes r.body w w' b (simp (handle_start_schedule, other, posts) at h) in
          ((eq_iff r.method "POST").0 posts, asked, absent, present)
      | inr neither ↦ ground (arith, h, other, neither)
    ]
  ]

-- A resource that is not in the state of success.
abbrev pub IsOther : TurndownSchedule → Type 0
IsOther td = str_eq td.status.state schedule_state_success ≡ false

-- A list has no resource in the state of success, or one before which there is no other.
abbrev pub FirstSuccess : List TurndownSchedule → TurndownSchedule → Type 0
FirstSuccess tds td =
    (pre : List TurndownSchedule) × (post : List TurndownSchedule) × (tds ≡ pre ++ td ∷ post)
    × All IsOther pre
    × (td.status.state ≡ schedule_state_success)

to_cancel-first :
    (tds : List TurndownSchedule)
    → ((to_cancel tds ≡ none) × All IsOther tds)
      ⊎ ((td : TurndownSchedule) × (to_cancel tds ≡ some td) × FirstSuccess tds td)
unfolding to_cancel
to_cancel-first [] = inl (refl, tt)
to_cancel-first (td ∷ tds) = elim (Bool-cases (str_eq td.status.state schedule_state_success)) [
  | inl here ↦ inr (
    td,
    simp (to_cancel, here),
    ([], tds, refl, tt, (eq_iff td.status.state schedule_state_success).0 here),
  )
  | inr other ↦ elim (to_cancel-first tds) [
    | inl (absent, others) ↦ inl (simp (to_cancel, other, absent), (other, others))
    | inr (x, first, (pre, post, split, others, success)) ↦ inr (
      x,
      simp (to_cancel, other, first),
      (td ∷ pre, post, ap (λ ts. td ∷ ts) split, (other, others), success),
    )
  ]
]

-- Where the resources can be listed, cancelling either deletes nothing, answers nothing and finds none in
-- the state of success, or makes one call, which deletes the first that is in this state; the answer is
-- empty if the call has no error, and an error of the server if it has one.
pub handle_cancel_schedule-first :
    {W B : Type 0} (te : TurndownEndpoints W B) (w : W) (tds : List TurndownSchedule)
    → te.schedules_list w ≡ ok tds
    → ((handle_cancel_schedule te w ≡ (empty, w)) × All IsOther tds)
      ⊎ ((td : TurndownSchedule) × FirstSuccess tds td
          × (let (answer, w') = handle_cancel_schedule te w in
              let (failed, w₁) = te.schedules_delete td.name w in
              (w' ≡ w₁)
              × (((failed ≡ none) × (answer ≡ empty))
                  ⊎ ((e : Error) × (why : String) × (failed ≡ some e)
                      × (answer ≡ internal_server_error why)))))
unfolding handle_cancel_schedule failed_to
handle_cancel_schedule-first te w tds listed = elim (to_cancel-first tds) [
  | inl (absent, others) ↦ inl (simp (handle_cancel_schedule, listed, absent), others)
  | inr (td, chosen, first) ↦ elim (Option-cases ((te.schedules_delete td.name w).0)) [
    | inl fine ↦
        inr
          (td, first, simp (handle_cancel_schedule, listed, chosen, fine) (refl, inl (refl, refl)))
    | inr (e, failed) ↦ inr (
      td,
      first,
      simp (handle_cancel_schedule, listed, chosen, failed) (refl, inr (e, _, refl, refl)),
    )
  ]
]
