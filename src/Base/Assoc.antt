-- ===== src/Base/Assoc.antt =====
-- Go maps with string keys, as association lists with one entry for each key that was inserted.
use mathlib.Core.Path.{◌≡◌, refl}
use mathlib.Core.Bool.{Bool, true, false, ◌||◌}
use mathlib.Core.List.{List, [], ◌∷◌}
use mathlib.Core.Option.{Option, none, some}
use native.Mathlib.Omega.{arith}
use atreo_agent.Base.Tests.{if◌then◌else◌}
use atreo_agent.Base.Bytes.{Text, ◌==◌, ==_iff}

abbrev pub Map {ℓ} : Type ℓ → Type ℓ
Map V = List (Text × V)

module _ {ℓ} {V : Type ℓ} where
  -- `v, ok := m[k]`
  unfoldable pub lookup : Text → Map V → Option V
  lookup key [] = none
  lookup key ((name, value) ∷ rest) = if name == key then some value else lookup key rest

  -- `m[k] = v`
  unfoldable pub insert : Text → V → Map V → Map V
  insert key new [] = (key, new) ∷ []
  insert key new ((name, value) ∷ rest) =
      let later = insert key new rest in
      if name == key then (key, new) ∷ rest else (name, value) ∷ later

  -- `delete(m, k)`
  unfoldable pub delete : Text → Map V → Map V
  delete key [] = []
  delete key ((name, value) ∷ rest) =
      let later = delete key rest in if name == key then later else (name, value) ∷ later

  -- `_, ok := m[k]`
  unfoldable pub has_key : Text → Map V → Bool
  has_key key m = elim (lookup key m) [ none ↦ false | some value ↦ true ]

  pub lookup-insert :
      (key other : Text) (new : V) (m : Map V)
      → lookup other (insert key new m) ≡ (if key == other then some new else lookup other m)
  unfolding lookup insert
  lookup-insert key other new [] = refl
  lookup-insert key other new ((name, value) ∷ rest) =
      let later = lookup-insert key other new rest in
      ground (arith, ==_iff key other, ==_iff name key, ==_iff name other, later)

  pub lookup-delete :
      (key other : Text) (m : Map V)
      → lookup other (delete key m) ≡ (if key == other then none else lookup other m)
  unfolding lookup delete
  lookup-delete key other [] = ground arith
  lookup-delete key other ((name, value) ∷ rest) =
      let later = lookup-delete key other rest in
      ground (arith, ==_iff key other, ==_iff name key, ==_iff name other, later)

  pub has_key-insert :
      (key other : Text) (new : V) (m : Map V)
      → has_key other (insert key new m) ≡ (key == other || has_key other m)
  unfolding has_key
  has_key-insert key other new m = rw (lookup-insert key other new m, has_key) (ground arith)
