-- ===== src/Base/Sorting.antt =====
-- Python's stable sort, by a test that tells whether one item may stand before another.
use Prim.Native.Nat.{suc}
use mathlib.Core.Path.{◌≡◌, refl, ap, ◌∙◌}
use mathlib.Core.Logic.{◌⊎◌, ◌↔◌, inl, inr}
use mathlib.Core.Bool.{Bool, true, false}
use mathlib.Core.List.{List, [], ◌∷◌}
use native.Mathlib.Omega.{arith}
use auto_builder.Base.Tests.{if◌then◌else◌, Bool-cases}
use auto_builder.Base.Lists.{IsIn, length}

module _ {A : Type 0} (before : A → A → Bool) where
  unfoldable pub place : A → List A → List A
  place x [] = x ∷ []
  place x (y ∷ ys) = let rest = place x ys in if before x y then x ∷ y ∷ ys else y ∷ rest

  unfoldable pub sort_by : List A → List A
  unfolding place
  sort_by [] = []
  sort_by (x ∷ xs) = place x (sort_by xs)

  IsIn-place : (a x : A) (ys : List A) → IsIn a (place x ys) ↔ ((x ≡ a) ⊎ IsIn a ys)
  unfolding place
  IsIn-place a x [] = (λ h. h, λ h. h)
  IsIn-place a x (y ∷ ys) = elim (Bool-cases (before x y)) [
    | inl b ↦ rw b (λ h. h, λ h. h)
    | inr b ↦ rw b (
      λ h. elim h [
        | inl first ↦ inr (inl first)
        | inr later ↦ elim ((IsIn-place a x ys).0 later) [
          | inl new ↦ inl new
          | inr old ↦ inr (inr old)
        ]
      ],
      λ h. elim h [
        | inl new ↦ inr ((IsIn-place a x ys).1 (inl new))
        | inr (inl first) ↦ inl first
        | inr (inr old) ↦ inr ((IsIn-place a x ys).1 (inr old))
      ],
    )
  ]

  pub IsIn-sort_by : (a : A) (xs : List A) → IsIn a (sort_by xs) ↔ IsIn a xs
  unfolding sort_by
  IsIn-sort_by a [] = (λ h. h, λ h. h)
  IsIn-sort_by a (x ∷ xs) = (
    λ h. elim ((IsIn-place a x (sort_by xs)).0 h) [
      | inl new ↦ inl new
      | inr old ↦ inr ((IsIn-sort_by a xs).0 old)
    ],
    λ h.
        (IsIn-place a x (sort_by xs)).1
          (elim h [ inl new ↦ inl new | inr old ↦ inr ((IsIn-sort_by a xs).1 old) ]),
  )

  length-place : (x : A) (ys : List A) → length (place x ys) ≡ suc (length ys)
  unfolding place
  length-place x [] = refl
  length-place x (y ∷ ys) = ground (arith, length-place x ys)

  pub length-sort_by : (xs : List A) → length (sort_by xs) ≡ length xs
  unfolding sort_by
  length-sort_by [] = refl
  length-sort_by (x ∷ xs) = length-place x (sort_by xs) ∙ ap suc (length-sort_by xs)

module _ {A : Type 0} (Le : A → A → Type 0) where
  abbrev pub Follows : A → List A → Type 0
  Follows x [] = Unit
  Follows x (y ∷ ys) = Le x y

  -- Neighbours are in order.
  abbrev pub IsOrdered : List A → Type 0
  IsOrdered [] = Unit
  IsOrdered (x ∷ xs) = Follows x xs × IsOrdered xs

module _ {A : Type 0} (Le : A → A → Type 0) (before : A → A → Bool)
    (before_le : (x y : A) → before x y ≡ true → Le x y)
    (after_le : (x y : A) → before x y ≡ false → Le y x) where
  Follows-place :
      (x y : A) (zs : List A) → Le x y → Follows Le x zs → Follows Le x (place before y zs)
  unfolding place
  Follows-place x y [] le h = le
  Follows-place x y (z ∷ zs) le h = elim (Bool-cases (before y z)) [
    | inl b ↦ rw b le
    | inr b ↦ rw b h
  ]

  place-IsOrdered : (x : A) (ys : List A) → IsOrdered Le ys → IsOrdered Le (place before x ys)
  unfolding place
  place-IsOrdered x [] h = (tt, tt)
  place-IsOrdered x (y ∷ ys) h = elim (Bool-cases (before x y)) [
    | inl b ↦ rw b (before_le x y b, h)
    | inr b ↦ rw b (Follows-place y x ys (after_le x y b) h.0, place-IsOrdered x ys h.1)
  ]

  pub sort_by-IsOrdered : (xs : List A) → IsOrdered Le (sort_by before xs)
  unfolding sort_by
  sort_by-IsOrdered [] = tt
  sort_by-IsOrdered (x ∷ xs) = place-IsOrdered x (sort_by before xs) (sort_by-IsOrdered xs)
