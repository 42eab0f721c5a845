-- ===== src/Prelude/Maps.antt =====
-- Go's `map[string]V`: `none` is the nil map, `some` its entries, of which the first for a key counts.
-- Where a loop ranges over a map, the entries stand in the order in which it meets them.
use Prim.Native.String.{String}
use mathlib.Core.Path.{◌≡◌, refl}
use mathlib.Core.List.{List, [], ◌∷◌}
use mathlib.Core.Logic.{◌≢◌}
use mathlib.Core.Option.{Option, none, some}
use native.Mathlib.Omega.{arith}
use text.Mathlib.Text.{◌==◌ as str_eq}
use text.Mathlib.TextEquality.{eq_iff}
use cluster_turndown.Prelude.Tests.{if◌then◌else◌}

abbrev pub Entries {ℓ} : Type ℓ → Type ℓ
Entries V = List (String × V)

abbrev pub GoMap {ℓ} : Type ℓ → Type ℓ
GoMap V = Option (Entries V)

module _ {ℓ} {V : Type ℓ} where
  unfoldable pub lookup : String → Entries V → Option V
  lookup k [] = none
  lookup k ((j, v) ∷ m) = if str_eq j k then some v else lookup k m

  unfoldable pub insert : String → V → Entries V → Entries V
  insert k v [] = (k, v) ∷ []
  insert k v ((j, w) ∷ m) = if str_eq j k then (k, v) ∷ m else (j, w) ∷ insert k v m

  unfoldable pub without : String → Entries V → Entries V
  without k [] = []
  without k ((j, v) ∷ m) = let rest = without k m in if str_eq j k then rest else (j, v) ∷ rest

  pub lookup-insert :
      (set asked : String) (x : V) (m : Entries V)
      → lookup asked (insert set x m) ≡ (if str_eq set asked then some x else lookup asked m)
  unfolding insert lookup
  lookup-insert set asked x [] = refl
  lookup-insert set asked x (entry ∷ rest) =
      let later = lookup-insert set asked x rest in
      ground (arith, later, eq_iff set asked, eq_iff entry.0 asked, eq_iff entry.0 set)

  pub lookup-without :
      (k j : String) (m : Entries V)
      → lookup j (without k m) ≡ (if str_eq k j then none else lookup j m)
  unfolding lookup without
  lookup-without k j [] = ground arith
  lookup-without k j ((i, v) ∷ m) =
      ground (arith, lookup-without k j m, eq_iff i k, eq_iff i j, eq_iff k j)

  pub lookup-insert_self : (k : String) (v : V) (m : Entries V) → lookup k (insert k v m) ≡ some v
  lookup-insert_self k v m = ground (arith, eq_iff k k, lookup-insert k k v m)

  -- The value under one key stays, whatever is written under another.
  pub lookup-insert_under :
      (k j : String) (v w : V) (m : Entries V)
      → k ≢ j
      → lookup k (insert j w (insert k v m)) ≡ some v
  lookup-insert_under k j v w m apart =
      ground
        (arith, apart, eq_iff j k, lookup-insert j k w (insert k v m), lookup-insert_self k v m)

  -- Taking out a key that is absent changes nothing.
  pub without_absent : (k : String) (m : Entries V) → lookup k m ≡ none → without k m ≡ m
  unfolding lookup without
  without_absent k [] h = refl
  without_absent k ((i, v) ∷ m) h = ground (arith, without_absent k m)

  -- A key that was absent, added and taken out again leaves the entries as they were.
  pub without-insert_absent :
      (k : String) (v : V) (m : Entries V) → lookup k m ≡ none → without k (insert k v m) ≡ m
  unfolding lookup without insert
  without-insert_absent k v [] h = ground (arith, eq_iff k k)
  without-insert_absent k v ((i, w) ∷ m) h = ground (arith, without-insert_absent k v m)

  -- Writing the value that a key has, after another, restores the entries.
  pub insert-insert_present :
      (k : String) (v w : V) (m : Entries V) → lookup k m ≡ some w → insert k w (insert k v m) ≡ m
  unfolding lookup insert
  insert-insert_present k v w [] h = ground arith
  insert-insert_present k v w ((i, u) ∷ m) h =
      ground (arith, eq_iff i k, eq_iff k k, insert-insert_present k v w m)

  -- `m[k]` with its second result.
  abbrev pub get : GoMap V → String → Option V
  get none k = none
  get (some es) k = lookup k es

  -- `if m == nil { m = map[string]V{k: v} } else { m[k] = v }`
  abbrev pub put : GoMap V → String → V → GoMap V
  put none k v = some ((k, v) ∷ [])
  put (some es) k v = some (insert k v es)

  -- `delete(m, k)`, which does nothing to a nil map.
  abbrev pub delete : GoMap V → String → GoMap V
  delete none k = none
  delete (some es) k = some (without k es)

-- `m[k]` with its first result only: the zero value where the key is missing.
abbrev pub get_text : GoMap String → String → String
get_text m k = elim (get m k) [ none ↦ "" | some v ↦ v ]

module _ {ℓ} {V : Type ℓ} where
  pub get-put :
      (m : GoMap V) (k j : String) (v : V)
      → get (put m k v) j ≡ (if str_eq k j then some v else get m j)
  unfolding lookup
  get-put none k j v = refl
  get-put (some es) k j v = lookup-insert k j v es

  pub get-delete :
      (m : GoMap V) (k j : String) → get (delete m k) j ≡ (if str_eq k j then none else get m j)
  get-delete none k j = ground arith
  get-delete (some es) k j = lookup-without k j es

-- Two maps that answer every lookup alike.
abbrev pub SameMap {ℓ} : {V : Type ℓ} → GoMap V → GoMap V → Type ℓ
SameMap {V} m m' = (k : String) → ◌≡◌ {A = Option V} (get m k) (get m' k)

pub get_text_absent : (m : GoMap String) (k : String) → get m k ≡ none → get_text m k ≡ ""
get_text_absent m k h = rw (h, get_text)

pub get_text_present : (m : GoMap String) (k v : String) → get m k ≡ some v → get_text m k ≡ v
get_text_present m k v h = rw (h, get_text)

module _ {ℓ} {V : Type ℓ} (m : GoMap V) (k : String) where
  -- A value that is overwritten and written back is the one that lookups find.
  pub put-put_restores : (v w : V) → get m k ≡ some w → SameMap (put (put m k v) k w) m
  put-put_restores v w h j =
      ground (arith, get-put (put m k v) k j w, get-put m k j v, eq_iff k j, h)

  -- A key that was added and is deleted is missing again.
  pub delete-put_restores : (v : V) → get m k ≡ none → SameMap (delete (put m k v) k) m
  delete-put_restores v h j =
      ground (arith, get-delete (put m k v) k j, get-put m k j v, eq_iff k j, h)
