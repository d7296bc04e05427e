-- ===== src/Base/Dicts.antt =====
-- Python's `dict` with text keys, as an association list in insertion order.
use Prim.Native.String.{String}
use mathlib.Core.Path.{◌≡◌, refl}
use mathlib.Core.Option.{Option, none, some}
use mathlib.Core.List.{List, [], ◌∷◌}
use native.Mathlib.Omega.{arith}
use text.Mathlib.Text.{◌==◌}
use text.Mathlib.TextEquality.{eq_iff}
use auto_builder.Base.Tests.{if◌then◌else◌}

abbrev pub Dict {ℓ} : Type ℓ → Type ℓ
Dict V = List (String × V)

module _ {ℓ} {V : Type ℓ} where
  -- d.pop(key, None)
  unfoldable pub delete : String → Dict V → Dict V
  delete key [] = []
  delete key ((old, v) ∷ d) =
      let rest = delete key d in if old == key then rest else (old, v) ∷ rest

  -- d.get(key)
  unfoldable pub lookup : String → Dict V → Option V
  lookup key [] = none
  lookup key ((old, v) ∷ d) = let rest = lookup key d in if old == key then some v else rest

  pub lookup-delete :
      (key other : String) (d : Dict V)
      → lookup other (delete key d) ≡ (if key == other then none else lookup other d)
  unfolding lookup delete
  lookup-delete key other [] = ground arith
  lookup-delete key other ((old, v) ∷ d) =
      ground (arith, lookup-delete key other d, eq_iff old key, eq_iff old other, eq_iff key other)

  -- d[key] = new
  unfoldable pub insert : String → V → Dict V → Dict V
  insert key new [] = (key, new) ∷ []
  insert key new ((old, v) ∷ d) =
      let rest = insert key new d in if old == key then (key, new) ∷ d else (old, v) ∷ rest

  pub lookup-insert :
      (key other : String) (new : V) (d : Dict V)
      → lookup other (insert key new d) ≡ (if key == other then some new else lookup other d)
  unfolding lookup insert
  lookup-insert key other new [] = refl
  lookup-insert key other new ((old, v) ∷ d) =
      ground
        (arith, lookup-insert key other new d, eq_iff old other, eq_iff old key, eq_iff key other)
