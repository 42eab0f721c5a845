-- ===== src/Patcher/Keeps.antt =====
-- What a patch does not change: a view of the world that the client's patches leave alone.
use cluster_turndown.Prelude.{
  String, ◌≡◌, refl, ◌∙◌, inl, inr, Option, none, some, List, [], ◌∷◌, arith, Error, Result, ok,
  err, Result-cases,
}
use cluster_turndown.Kube.{Client, Named}
use cluster_turndown.Patcher.{marshal_again, send_difference, patch_object, is_no_updates}
use cluster_turndown.Patcher.Loop.{for_each}

-- Patches leave the view as it is.
abbrev pub Keeps : {W V D : Type 0} → (W → V) → Client W D → Type 0
Keeps {W} view c =
    (namespace name : String) (p : c.Patch) (w : W) → view (c.patch namespace name p w).1 ≡ view w

module _ {W V : Type 0} (view : W → V) where
  send_difference-Keeps :
      {D : Type 0} (c : Client W D) (n : Named D)
      → Keeps view c
      → (old : c.Bytes) (d : D) (w : W) → view (send_difference c n old d w).1 ≡ view w
  unfolding send_difference
  send_difference-Keeps c n keeps old d w =
      elim (Result-cases (c.two_way_patch old (marshal_again c n d) d)) [
        | inr (e, failed) ↦ rw (failed, send_difference) refl
        | inl (p, made) ↦ rw (made, send_difference) (keeps _ _ p w)
      ]

  pub patch_object-Keeps :
      {D : Type 0} (c : Client W D) (n : Named D)
      → Keeps view c
      → (d : D) (change : D → D × Option Error) (w : W)
      → view (patch_object c n d change w).1 ≡ view w
  unfolding patch_object is_no_updates
  patch_object-Keeps c n keeps d change w = elim (Result-cases (c.marshal d)) [
    | inr (e, failed) ↦ rw (failed, patch_object) refl
    | inl (old, made) ↦ ground (arith, made, send_difference-Keeps c n keeps old (change d).0 w)
  ]

  pub for_each-Keeps :
      {D : Type 0} (body : D → W → W)
      → ((d : D) (w : W) → view (body d w) ≡ view w)
      → (ds : List D) (w : W) → view (for_each body ds w) ≡ view w
  for_each-Keeps body keeps [] w = refl
  for_each-Keeps body keeps (d ∷ ds) w = for_each-Keeps body keeps ds (body d w) ∙ keeps d w

  -- `list, err := ...; if err != nil { return err }`, and a loop over the list.
  pub loop-Keeps :
      {D : Type 0} (items : Result (List D)) (body : D → W → W)
      → ((d : D) (w : W) → view (body d w) ≡ view w)
      → (w : W)
      → let r : Option Error × W = elim items [
        | err e ↦ (some e, w)
        | ok ds ↦ (none, for_each body ds w)
      ] in
        view r.1 ≡ view w
  loop-Keeps (err e) body keeps w = refl
  loop-Keeps (ok ds) body keeps w = for_each-Keeps body keeps ds w
