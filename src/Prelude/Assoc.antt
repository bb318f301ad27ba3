-- ===== src/Prelude/Assoc.antt =====
-- A map with number keys as an association list. The program never depends on the order of one.
use mathlib.Core.Path.{◌≡◌, refl}
use mathlib.Core.Option.{Option, none, some}
use mathlib.Core.List.{List, [], ◌∷◌}
use Prim.Native.Nat.{ℕ}
use native.Mathlib.Omega.{arith}
use shanshui_cunji.Prelude.Tests.{◌==◌, if◌then◌else◌}

abbrev pub Map {ℓ} : Type ℓ → Type ℓ
Map V = List (ℕ × V)

module _ {ℓ} {V : Type ℓ} where
  unfoldable pub lookup : ℕ → Map V → Option V
  lookup key [] = none
  lookup key ((k, v) ∷ m) = let later = lookup key m in if k == key then some v else later

  unfoldable pub remove : ℕ → Map V → Map V
  remove key [] = []
  remove key ((k, v) ∷ m) = let later = remove key m in if k == key then later else (k, v) ∷ later

  unfoldable pub insert : ℕ → V → Map V → Map V
  insert key new [] = (key, new) ∷ []
  insert key new ((k, v) ∷ m) =
      let later = insert key new m in if k == key then (key, new) ∷ m else (k, v) ∷ later

  pub lookup-remove :
      (key asked : ℕ) (m : Map V)
      → lookup asked (remove key m) ≡ (if key == asked then none else lookup asked m)
  unfolding lookup remove
  lookup-remove key asked [] = ground arith
  lookup-remove key asked ((k, v) ∷ m) = ground (arith, lookup-remove key asked m)

  pub lookup-insert :
      (key asked : ℕ) (new : V) (m : Map V)
      → lookup asked (insert key new m) ≡ (if key == asked then some new else lookup asked m)
  unfolding lookup insert
  lookup-insert key asked new [] = refl
  lookup-insert key asked new ((k, v) ∷ m) = ground (arith, lookup-insert key asked new m)

pub ruleset map_laws = (lookup-insert, lookup-remove)
