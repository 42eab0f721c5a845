-- ===== src/Pools/Resize/Sizes.antt =====
-- How the sizes of the pools of a cluster change while some of them are resized one by one.
use cluster_turndown.Tasks.Goroutines.Ends.{Taken, is_first, is_later, Ends, all_done, one_done}
use cluster_turndown.Prelude.{
  String, ◌≡◌, sym, ap, ◌∙◌, ◌⊎◌, inl, inr, some, List, [], ◌∷◌, map, str_eq, eq_iff, Bool-cases, ℤ,
}
use cluster_turndown.Pools.{NodePool}
use cluster_turndown.Pools.Resize.Laws.{Sizes, resized}

unfoldable pub Among : String → List NodePool → Type 0
Among name [] = ⊥
Among name (np ∷ nps) = (np.name ≡ name) ⊎ Among name nps

-- Wherever two sizes differ, the pool is among those of the list.
unfoldable pub DiffersAt : List NodePool → Sizes → Sizes → Type 0
unfolding Among
DiffersAt nps f g = (name : String) → (g name ≡ f name) ⊎ Among name nps

-- After setting, the pools of the list have `n` nodes, and the others what they had.
unfoldable pub SetTo : ℤ → List NodePool → Sizes → Sizes → Type 0
unfolding Among
SetTo n nps f g =
    (name : String)
    → ((g name ≡ some n) × Among name nps) ⊎ ((g name ≡ f name) × (Among name nps → ⊥))

-- One pool more, resized before the others.
pub SetTo-step :
    (n : ℤ) (np : NodePool) (nps : List NodePool) (f g h : Sizes)
    → ((name : String) → g name ≡ resized np.name n f name)
    → SetTo n nps g h
    → SetTo n (np ∷ nps) f h
unfolding SetTo Among
SetTo-step n np nps f g h sized later name = elim (later name) [
  | inl (is, among) ↦ inl (is, inr among)
  | inr (same, absent) ↦ elim (Bool-cases (str_eq np.name name)) [
    | inl here ↦ inl (same ∙ sized name ∙ simp here, inl ((eq_iff np.name name).0 here))
    | inr apart ↦ inr (
      same ∙ sized name ∙ simp apart,
      λ among. elim among [
        | inl here ↦ absurd (cc (apart, (eq_iff np.name name).1 here))
        | inr there ↦ absent there
      ],
    )
  ]
]

-- One pool less, resized back to its number of nodes.
pub DiffersAt-step :
    (f : Sizes) (np : NodePool) (nps : List NodePool) (g h : Sizes)
    → (f np.name ≡ some np.node_count)
    → ((name : String) → h name ≡ resized np.name np.node_count g name)
    → DiffersAt (np ∷ nps) f g
    → DiffersAt nps f h
unfolding DiffersAt Among
DiffersAt-step f np nps g h at sized differs name = elim (Bool-cases (str_eq np.name name)) [
  | inl here ↦ inl (simp (sized name, here, sym (ap f ((eq_iff np.name name).0 here)), at))
  | inr apart ↦ elim (differs name) [
    | inl same ↦ inl (sized name ∙ simp (apart, same))
    | inr (inl here) ↦ absurd (cc (apart, (eq_iff np.name name).1 here))
    | inr (inr there) ↦ inr there
  ]
]

-- Two lists of the same names.
pub SetTo-same :
    (n : ℤ) (nps nps' : List NodePool) (f g : Sizes)
    → ((name : String) → Among name nps → Among name nps')
    → ((name : String) → Among name nps' → Among name nps)
    → SetTo n nps f g
    → SetTo n nps' f g
unfolding SetTo
SetTo-same n nps nps' f g to from h name = elim (h name) [
  | inl (is, among) ↦ inl (is, to name among)
  | inr (same, absent) ↦ inr (same, λ among. absent (from name among))
]

-- The pools of goroutines that end, shown by their names.
module _ {A : Type 0} (shown : A → NodePool) (name : String) where
  put_back :
      {x : A} {xs rest : List A}
      → Taken x rest xs
      → Among name (map shown (x ∷ rest))
      → Among name (map shown xs)
  unfolding Among
  put_back is_first a = a
  put_back (is_later t) (inl own) = inr (put_back t (inl own))
  put_back (is_later t) (inr (inl first)) = inl first
  put_back (is_later t) (inr (inr later)) = inr (put_back t (inr later))

  Among-Taken :
      {x : A} {xs rest : List A}
      → Taken x rest xs
      → Among name (map shown xs)
      → Among name (map shown (x ∷ rest))
  unfolding Among
  Among-Taken is_first a = a
  Among-Taken (is_later t) (inl first) = inr (inl first)
  Among-Taken (is_later t) (inr later) = elim (Among-Taken t later) [
    | inl own ↦ inl own
    | inr behind ↦ inr (inr behind)
  ]

  -- Those that end were there, and all that were there end where none is left.
  pub Among-done :
      {left xs done : List A}
      → Ends left xs done
      → Among name (map shown done)
      → Among name (map shown xs)
  unfolding Among
  Among-done all_done a = elim a [ ]
  Among-done (one_done t e) (inl own) = put_back t (inl own)
  Among-done (one_done t e) (inr later) = put_back t (inr (Among-done e later))

  pub Among-all_done :
      {xs done : List A} → Ends [] xs done → Among name (map shown xs) → Among name (map shown done)
  unfolding Among
  Among-all_done all_done a = a
  Among-all_done (one_done t e) a = elim (Among-Taken t a) [
    | inl own ↦ inl own
    | inr later ↦ inr (Among-all_done e later)
  ]
