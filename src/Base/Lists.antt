-- ===== src/Base/Lists.antt =====
-- Lists under Boolean tests and native numbers, and predicates by recursion.
use Prim.Native.Nat.{ℕ, zero, suc, ◌+◌, ◌≤◌}
use Prim.Native.String.{String}
use mathlib.Core.Path.{◌≡◌, refl, subst}
use mathlib.Core.Logic.{◌⊎◌, ◌↔◌, inl, inr}
use mathlib.Core.Bool.{Bool, true, false, ◌||◌, ◌&&◌}
use mathlib.Core.Option.{Option, none, some}
use mathlib.Core.List.{List, [], ◌∷◌, ◌++◌}
use native.Mathlib.Omega.{arith}
use text.Mathlib.Text.{◌==◌}
use text.Mathlib.TextEquality.{eq_iff}
use auto_builder.Base.Tests.{if◌then◌else◌, Bool-cases}

module _ {ℓ} {A : Type ℓ} where
  abbrev pub length : List A → ℕ
  length [] = 0
  length (_ ∷ xs) = suc (length xs)

  abbrev pub get_elem? : List A → ℕ → Option A
  get_elem? [] i = none
  get_elem? (x ∷ xs) zero = some x
  get_elem? (x ∷ xs) (suc i) = get_elem? xs i

  abbrev pub take : ℕ → List A → List A
  take zero xs = []
  take (suc n) [] = []
  take (suc n) (x ∷ xs) = x ∷ take n xs

  -- The list comprehension with a condition.
  unfoldable pub select : (A → Bool) → List A → List A
  select p [] = []
  select p (x ∷ xs) = let rest = select p xs in if p x then x ∷ rest else rest

  -- The first item that passes the test.
  unfoldable pub find : (A → Bool) → List A → Option A
  find p [] = none
  find p (x ∷ xs) = if p x then some x else find p xs

  unfoldable pub any : (A → Bool) → List A → Bool
  any p [] = false
  any p (x ∷ xs) = p x || any p xs

  unfoldable pub all : (A → Bool) → List A → Bool
  all p [] = true
  all p (x ∷ xs) = p x && all p xs

  abbrev pub is_nil : List A → Bool
  is_nil [] = true
  is_nil (_ ∷ _) = false

module _ {ℓ} {A : Type ℓ} where
  abbrev pub All : (A → Type 0) → List A → Type 0
  All P [] = Unit
  All P (x ∷ xs) = P x × All P xs

  abbrev pub Any : (A → Type 0) → List A → Type 0
  Any P [] = ⊥
  Any P (x ∷ xs) = P x ⊎ Any P xs

-- `x in xs`, for texts.
unfoldable pub elem : String → List String → Bool
elem x [] = false
elem x (y ∷ ys) = y == x || elem x ys

module _ {ℓ} {A : Type ℓ} where
  pub length-append : (xs ys : List A) → length (xs ++ ys) ≡ length xs + length ys
  length-append [] ys = omega arith
  length-append (x ∷ xs) ys = omega (arith, length-append xs ys)

  pub length-select : (p : A → Bool) (xs : List A) → length (select p xs) ≤ length xs
  unfolding select
  length-select p [] = omega arith
  length-select p (x ∷ xs) = ground (arith, length-select p xs)

pub elem-append : (x : String) (xs ys : List String) → elem x (xs ++ ys) ≡ (elem x xs || elem x ys)
unfolding elem
elem-append x [] ys = refl
elem-append x (y ∷ xs) ys = ground (arith, elem-append x xs ys)

module _ {ℓ} {A : Type ℓ} where
  pub All-map : {P Q : A → Type 0} (xs : List A) → ((x : A) → P x → Q x) → All P xs → All Q xs
  All-map [] f h = tt
  All-map (x ∷ xs) f h = (f x h.0, All-map xs f h.1)

  pub All-zip :
      {P Q R : A → Type 0} (xs : List A)
      → ((x : A) → P x → Q x → R x)
      → All P xs
      → All Q xs
      → All R xs
  All-zip [] f h k = tt
  All-zip (x ∷ xs) f h k = (f x h.0 k.0, All-zip xs f h.1 k.1)

module _ {ℓ} {A : Type ℓ} where
  pub Any-map : {P Q : A → Type 0} (xs : List A) → ((x : A) → P x → Q x) → Any P xs → Any Q xs
  Any-map [] f h = h
  Any-map (x ∷ xs) f (inl p) = inl (f x p)
  Any-map (x ∷ xs) f (inr p) = inr (Any-map xs f p)

module _ {A : Type 0} where
  -- Membership, by recursion on the list.
  abbrev pub IsIn : A → List A → Type 0
  IsIn a = Any (λ x. x ≡ a)

  pub IsIn-select :
      (p : A → Bool) (a : A) (xs : List A) → IsIn a (select p xs) ↔ (IsIn a xs × (p a ≡ true))
  unfolding select
  IsIn-select p a [] = (λ h. absurd h, λ h. absurd h.0)
  IsIn-select p a (x ∷ xs) = (
    elim (Bool-cases (p x)) [
      | inl e ↦ rw e (λ h. elim h [
        | inl here ↦ (inl here, rw here at e)
        | inr there ↦ let r = (IsIn-select p a xs).0 there in (inr r.0, r.1)
      ])
      | inr e ↦ rw e (λ h. let r = (IsIn-select p a xs).0 h in (inr r.0, r.1))
    ],
    elim (Bool-cases (p x)) [
      | inl e ↦ rw e (λ h. elim h.0 [
        | inl here ↦ inl here
        | inr there ↦ inr ((IsIn-select p a xs).1 (there, h.1))
      ])
      | inr e ↦ rw e (λ h. elim h.0 [
        | inl here ↦ let bad : p x ≡ true = rw here h.1 in cc
        | inr there ↦ (IsIn-select p a xs).1 (there, h.1)
      ])
    ],
  )

pub All-elem :
    (P : String → Type 0) (x : String) (xs : List String) → All P xs → elem x xs ≡ true → P x
unfolding elem
All-elem P x [] h e = absurd (ground arith)
All-elem P x (y ∷ xs) h e = elim (Bool-cases (y == x)) [
  | inl here ↦ subst P ((eq_iff y x).0 here) h.0
  | inr other ↦ All-elem P x xs h.1 (ground arith)
]

pub elem-All : (xs : List String) → All (λ x. elem x xs ≡ true) xs
unfolding elem
elem-All [] = tt
elem-All (x ∷ xs) =
    (ground (arith, eq_iff x x), All-map xs (λ y h. ground (arith, h)) (elem-All xs))

module _ {A : Type 0} where
  pub Any-append : (P : A → Type 0) (xs ys : List A) → Any P (xs ++ ys) ↔ (Any P xs ⊎ Any P ys)
  Any-append P [] ys = (λ h. inr h, λ h. elim h [ inl f ↦ absurd f | inr k ↦ k ])
  Any-append P (x ∷ xs) ys = (
    λ h. elim h [
      | inl here ↦ inl (inl here)
      | inr there ↦ elim ((Any-append P xs ys).0 there) [ inl k ↦ inl (inr k) | inr k ↦ inr k ]
    ],
    λ h. elim h [
      | inl (inl here) ↦ inl here
      | inl (inr k) ↦ inr ((Any-append P xs ys).1 (inl k))
      | inr k ↦ inr ((Any-append P xs ys).1 (inr k))
    ],
  )

pub elem_iff : (x : String) (xs : List String) → (elem x xs ≡ true) ↔ IsIn x xs
unfolding elem
elem_iff x [] = (λ h. cc, λ h. absurd h)
elem_iff x (y ∷ ys) = (
  λ h. elim (Bool-cases (y == x)) [
    | inl here ↦ inl ((eq_iff y x).0 here)
    | inr other ↦ inr ((elem_iff x ys).0 (ground arith))
  ],
  λ h. elim h [
    | inl here ↦ ground (arith, eq_iff y x)
    | inr there ↦ let rest = (elem_iff x ys).1 there in ground (arith, rest)
  ],
)

-- The items of a set: each text once.
unfoldable pub distinct : List String → List String
unfolding elem
distinct [] = []
distinct (x ∷ xs) = let rest = distinct xs in if elem x rest then rest else x ∷ rest

-- No text twice.
abbrev pub IsDistinct : List String → Type 0
IsDistinct [] = Unit
IsDistinct (x ∷ xs) = (elem x xs ≡ false) × IsDistinct xs

pub elem-distinct : (x : String) (xs : List String) → elem x (distinct xs) ≡ elem x xs
unfolding elem distinct
elem-distinct x [] = refl
elem-distinct x (y ∷ ys) = ground (arith, elem-distinct x ys, elem-distinct y ys, eq_iff y x)

pub distinct-IsDistinct : (xs : List String) → IsDistinct (distinct xs)
unfolding distinct
distinct-IsDistinct [] = tt
distinct-IsDistinct (x ∷ xs) = elim (Bool-cases (elem x (distinct xs))) [
  | inl e ↦ rw e (distinct-IsDistinct xs)
  | inr e ↦ rw e (e, distinct-IsDistinct xs)
]
