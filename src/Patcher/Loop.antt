-- ===== src/Patcher/Loop.antt =====
-- Patching every object of a list, one after the other, as the loops of the flattener do.
use cluster_turndown.Prelude.{
  ◌≡◌, refl, sym, ◌∙◌, Option, none, some, List, [], ◌∷◌, ◌++◌, map, append_assoc, arith, All,
  All-append, Error, ok,
}
use cluster_turndown.Kube.{Client, Named}
use cluster_turndown.Kube.Stored.{Serves, SameName, Absent, Distinct}
use cluster_turndown.Patcher.{patch_object}

-- What a patch leaves in the store: nothing is sent when the patch function returns an error.
abbrev pub patched : {D : Type 0} → (D → D × Option Error) → D → D
patched change d = elim ((change d).1) [ none ↦ (change d).0 | some e ↦ d ]

-- `for _, x := range xs { body }`, for a body that goes on after an error.
abbrev pub for_each : {W D : Type 0} → (D → W → W) → List D → W → W
for_each body [] w = w
for_each body (d ∷ ds) w = for_each body ds (body d w)

module _ {W D : Type 0} {c : Client W D} {n : Named D} {objects : W → List D}
    (s : Serves c n objects) where
  module _ (change : D → D × Option Error) (d : D) (w : W) (pre post : List D) where
    pub patch_object-objects :
        SameName n d (change d).0
        → objects w ≡ pre ++ d ∷ post
        → Absent n d pre
        → objects (patch_object c n d change w).1 ≡ pre ++ patched change d ∷ post
    unfolding patch_object
    patch_object-objects same here absent = ground (
      arith,
      s.encodes d,
      s.encodes (change d).0,
      s.differs d (change d).0,
      s.replaces w pre post d (change d).0 here absent same,
      here,
    )

  module _ (body : D → W → W) (f : D → D) (same : (d : D) → SameName n d (f d))
      (step : (d : D) (w : W) (pre post : List D)
        → objects w ≡ pre ++ d ∷ post
        → Absent n d pre
        → objects (body d w) ≡ pre ++ f d ∷ post) where
    Absent-next :
        (d : D) (pre ds : List D)
        → All (λ e. Absent n e pre) ds
        → Absent n d ds
        → All (λ e. Absent n e (pre ++ f d ∷ [])) ds
    Absent-next d pre [] h a = tt
    Absent-next d pre (e ∷ ds) (h, hs) (a, as') = (
      All-append _ pre (f d ∷ []) h ((λ q. a ((same d).0 ∙ sym q.0, (same d).1 ∙ sym q.1)), tt),
      Absent-next d pre ds hs as',
    )

    -- A loop that replaces each object by its image does so for the whole list.
    pub for_each-objects_from :
        (w : W) (pre ds : List D)
        → objects w ≡ pre ++ ds
        → All (λ e. Absent n e pre) ds
        → Distinct n ds
        → objects (for_each body ds w) ≡ pre ++ map f ds
    for_each-objects_from w pre [] here absent distinct = here
    for_each-objects_from w pre (d ∷ ds) here (a, absent) (b, distinct) =
        for_each-objects_from (body d w) (pre ++ f d ∷ []) ds
          (step d w pre ds here a ∙ sym (append_assoc pre (f d ∷ []) ds))
          (Absent-next d pre ds absent b) distinct
        ∙ append_assoc pre (f d ∷ []) (map f ds)

    pub for_each-objects :
        (w : W) → Distinct n (objects w) → objects (for_each body (objects w) w) ≡ map f (objects w)
    for_each-objects w distinct =
        for_each-objects_from w [] (objects w) refl (All-nil (objects w)) distinct
      where
        All-nil : (ds : List D) → All (λ e. Absent n e []) ds
        All-nil [] = tt
        All-nil (d ∷ ds) = (tt, All-nil ds)

-- A patch that is sent to a store is answered with the changed object.
pub patch_object-answer :
    {W D : Type 0} {c : Client W D} {n : Named D} {objects : W → List D} (sv : Serves c n objects)
    (change : D → D × Option Error) (d : D) (w : W) (pre post : List D)
    → (change d).1 ≡ none
    → SameName n d (change d).0
    → objects w ≡ pre ++ d ∷ post
    → Absent n d pre
    → (patch_object c n d change w).0 ≡ ok (change d).0
unfolding patch_object
patch_object-answer {n = n} sv change d w pre post fine same here absent = ground (
  arith,
  fine,
  sv.encodes d,
  sv.encodes (change d).0,
  sv.differs d (change d).0,
  sv.replaces w pre post d (change d).0 here absent same,
  here,
)

-- A function that keeps the names keeps them apart.
module _ {D : Type 0} (n : Named D) (f : D → D) (same : (d : D) → SameName n d (f d)) where
  Absent-map : (d : D) (ds : List D) → Absent n d ds → Absent n (f d) (map f ds)
  Absent-map d [] a = tt
  Absent-map d (e ∷ ds) (a, as') = (
    λ q. a ((same d).0 ∙ q.0 ∙ sym (same e).0, (same d).1 ∙ q.1 ∙ sym (same e).1),
    Absent-map d ds as',
  )

  pub Distinct-map : (ds : List D) → Distinct n ds → Distinct n (map f ds)
  Distinct-map [] h = tt
  Distinct-map (d ∷ ds) (a, h) = (Absent-map d ds a, Distinct-map ds h)
