-- ===== src/Turndown/Jobs/Routines/Running.antt =====
-- Which routines are between the two changes of the set of running jobs, while each moves on.
use cluster_turndown.Prelude.{
  ℕ, zero, suc, String, ◌≡◌, refl, sym, ap, ◌∙◌, subst, Bool, true, false, ◌&&◌, ◌||◌, some, List,
  [], ◌∷◌, ◌++◌, arith, str_eq, eq_iff, if◌then◌else◌,
}
use cluster_turndown.Turndown.Jobs.{
  Routine, Phase, waiting, fired, stopped, running, returned, completing, handled, dropped, ended,
  cancel_context,
}
use cluster_turndown.Turndown.Jobs.Routines.{routine_at, set_phase, has_routine}

-- Between the two changes of the set of running jobs.
abbrev pub is_entered : Phase → Bool
is_entered waiting = false
is_entered fired = false
is_entered stopped = false
is_entered running = true
is_entered (returned failed) = true
is_entered (completing failed) = true
is_entered handled = true
is_entered dropped = false
is_entered ended = false

module _ {F : Type 0} where
  unfoldable pub has_entered : String → List (Routine F) → Bool
  has_entered id [] = false
  has_entered id (r ∷ rs) = (str_eq r.simple_job.id id && is_entered r.phase) || has_entered id rs

  unfoldable pub Unique : List (Routine F) → Type 0
  Unique [] = Unit
  Unique (r ∷ rs) = (has_routine r.simple_job.id rs ≡ false) × Unique rs

  same_routine : (q r : Routine F) → some q ≡ some r → q ≡ r
  same_routine q r h = cc h

  has_entered_absent :
      (id : String) (rs : List (Routine F)) → has_routine id rs ≡ false → has_entered id rs ≡ false
  unfolding has_entered has_routine
  has_entered_absent id [] h = refl
  has_entered_absent id (r ∷ rs) h = ground (arith, h, has_entered_absent id rs)

  has_routine_at :
      (n : ℕ) (rs : List (Routine F)) (r : Routine F)
      → routine_at n rs ≡ some r
      → has_routine r.simple_job.id rs ≡ true
  unfolding routine_at has_routine
  has_routine_at n [] r h = absurd (cc h)
  has_routine_at zero (q ∷ rs) r h =
      let self : has_routine q.simple_job.id (q ∷ rs) ≡ true =
        ground (arith, eq_iff q.simple_job.id q.simple_job.id) in
      subst (λ x. has_routine x.simple_job.id (q ∷ rs) ≡ true) (same_routine q r h) self
  has_routine_at (suc n) (q ∷ rs) r h = ground (arith, has_routine_at n rs r h)

  has_routine-set_phase :
      (id : String) (phase : Phase) (n : ℕ) (rs : List (Routine F))
      → has_routine id (set_phase phase n rs) ≡ has_routine id rs
  unfolding set_phase has_routine
  has_routine-set_phase id phase n [] = refl
  has_routine-set_phase id phase zero (q ∷ rs) = refl
  has_routine-set_phase id phase (suc n) (q ∷ rs) = rw (has_routine-set_phase id phase n rs) refl

  pub Unique-set_phase :
      (phase : Phase) (n : ℕ) (rs : List (Routine F)) → Unique rs → Unique (set_phase phase n rs)
  unfolding set_phase Unique
  Unique-set_phase phase n [] u = tt
  Unique-set_phase phase zero (q ∷ rs) u = u
  Unique-set_phase phase (suc n) (q ∷ rs) u =
      (has_routine-set_phase q.simple_job.id phase n rs ∙ u.0, Unique-set_phase phase n rs u.1)

  -- The routine at place n is the only one of its identifier.
  pub has_entered-set_phase :
      (id : String) (phase : Phase) (n : ℕ) (rs : List (Routine F)) (r : Routine F)
      → Unique rs
      → routine_at n rs ≡ some r
      → has_entered id (set_phase phase n rs)
        ≡ (if str_eq r.simple_job.id id then is_entered phase else has_entered id rs)
  unfolding set_phase routine_at has_entered Unique
  has_entered-set_phase id phase n [] r u h = absurd (cc h)
  has_entered-set_phase id phase zero (q ∷ rs) r u h =
      subst
        (λ x.
          has_entered id (set_phase phase 0 (q ∷ rs))
          ≡ (if str_eq x.simple_job.id id then is_entered phase else has_entered id (q ∷ rs)))
        (same_routine q r h)
        (ground (arith, has_entered_absent id rs, eq_iff q.simple_job.id id, u.0))
  has_entered-set_phase id phase (suc n) (q ∷ rs) r u h = ground (
    arith,
    has_entered-set_phase id phase n rs r u.1 h,
    has_routine_at n rs r h,
    u.0,
    eq_iff q.simple_job.id id,
    eq_iff r.simple_job.id id,
  )

  set_phase_same :
      (n : ℕ) (rs : List (Routine F)) (r : Routine F)
      → routine_at n rs ≡ some r
      → set_phase r.phase n rs ≡ rs
  unfolding set_phase routine_at
  set_phase_same n [] r h = refl
  set_phase_same zero (q ∷ rs) r h =
      subst (λ x. set_phase x.phase 0 (q ∷ rs) ≡ q ∷ rs) (same_routine q r h) refl
  set_phase_same (suc n) (q ∷ rs) r h = ap (λ xs. q ∷ xs) (set_phase_same n rs r h)

  -- A move within, or outside, of the two changes of the set.
  pub has_entered_kept :
      (phase : Phase) (n : ℕ) (rs : List (Routine F)) (r : Routine F)
      → Unique rs
      → routine_at n rs ≡ some r
      → is_entered phase ≡ is_entered r.phase
      → (id : String) → has_entered id (set_phase phase n rs) ≡ has_entered id rs
  has_entered_kept phase n rs r u h same id =
      has_entered-set_phase id phase n rs r u h
      ∙ ap (λ b. if str_eq r.simple_job.id id then b else has_entered id rs) same
      ∙ sym (has_entered-set_phase id r.phase n rs r u h)
      ∙ ap (has_entered id) (set_phase_same n rs r h)

  -- What cancelling a context, or a new routine, does to the routines.
  has_routine-cancel_context :
      (id : String) (n : ℕ) (rs : List (Routine F))
      → has_routine id (cancel_context n rs) ≡ has_routine id rs
  unfolding cancel_context has_routine
  has_routine-cancel_context id n [] = refl
  has_routine-cancel_context id zero (q ∷ rs) = refl
  has_routine-cancel_context id (suc n) (q ∷ rs) = rw (has_routine-cancel_context id n rs) refl

  pub has_entered-cancel_context :
      (id : String) (n : ℕ) (rs : List (Routine F))
      → has_entered id (cancel_context n rs) ≡ has_entered id rs
  unfolding cancel_context has_entered
  has_entered-cancel_context id n [] = refl
  has_entered-cancel_context id zero (q ∷ rs) = refl
  has_entered-cancel_context id (suc n) (q ∷ rs) = rw (has_entered-cancel_context id n rs) refl

  pub Unique-cancel_context :
      (n : ℕ) (rs : List (Routine F)) → Unique rs → Unique (cancel_context n rs)
  unfolding cancel_context Unique
  Unique-cancel_context n [] u = tt
  Unique-cancel_context zero (q ∷ rs) u = u
  Unique-cancel_context (suc n) (q ∷ rs) u =
      (has_routine-cancel_context q.simple_job.id n rs ∙ u.0, Unique-cancel_context n rs u.1)

  has_routine-append :
      (id : String) (rs : List (Routine F)) (r : Routine F)
      → has_routine id (rs ++ r ∷ []) ≡ (has_routine id rs || str_eq r.simple_job.id id)
  unfolding has_routine
  has_routine-append id [] r = ground arith
  has_routine-append id (q ∷ rs) r = ground (arith, has_routine-append id rs r)

  pub has_entered-append :
      (id : String) (rs : List (Routine F)) (r : Routine F)
      → is_entered r.phase ≡ false
      → has_entered id (rs ++ r ∷ []) ≡ has_entered id rs
  unfolding has_entered
  has_entered-append id [] r h = ground (arith, h)
  has_entered-append id (q ∷ rs) r h = rw (has_entered-append id rs r h) refl

  pub Unique-append :
      (rs : List (Routine F)) (r : Routine F)
      → has_routine r.simple_job.id rs ≡ false
      → Unique rs
      → Unique (rs ++ r ∷ [])
  unfolding Unique has_routine
  Unique-append [] r h u = (refl, tt)
  Unique-append (q ∷ rs) r h u = (
    ground (
      arith,
      h,
      u.0,
      has_routine-append q.simple_job.id rs r,
      eq_iff q.simple_job.id r.simple_job.id,
      eq_iff r.simple_job.id q.simple_job.id,
    ),
    Unique-append rs r (ground (arith, h)) u.1,
  )
