-- ===== src/Prelude/Assoc.antt =====
-- Go maps with string keys, as association lists without repeated keys.
use Prim.Native.String.{String}
use mathlib.Core.Path.{◌≡◌}
use mathlib.Core.List.{List, [], ◌∷◌}
use mathlib.Core.Option.{Option, none, some}
use native.Mathlib.Omega.{arith}
use text.Mathlib.Text.{◌==◌}
use text.Mathlib.TextEquality.{eq_iff}
use capd.Prelude.Tests.{if◌then◌else◌}

module _ {ℓ} {V : Type ℓ} where
  -- m[key]
  unfoldable pub lookup : String → List (String × V) → Option V
  lookup key [] = none
  lookup key ((k, v) ∷ m) = if k == key then some v else lookup key m

  -- delete(m, key)
  unfoldable pub remove : String → List (String × V) → List (String × V)
  remove key [] = []
  remove key ((k, v) ∷ m) = let rest = remove key m in if k == key then rest else (k, v) ∷ rest

  -- m[key] = value
  unfoldable pub insert : String → V → List (String × V) → List (String × V)
  unfolding remove
  insert key v m = (key, v) ∷ remove key m

  pub lookup-remove :
      (key j : String) (m : List (String × V))
      → lookup j (remove key m) ≡ (if key == j then none else lookup j m)
  unfolding lookup remove
  lookup-remove key j [] = ground arith
  lookup-remove key j ((k, v) ∷ m) =
      ground (arith, lookup-remove key j m, eq_iff k key, eq_iff k j, eq_iff key j)

  pub lookup-insert :
      (key j : String) (v : V) (m : List (String × V))
      → lookup j (insert key v m) ≡ (if key == j then some v else lookup j m)
  unfolding lookup insert
  lookup-insert key j v m = ground (arith, lookup-remove key j m)
