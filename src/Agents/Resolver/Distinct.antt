-- ===== src/Agents/Resolver/Distinct.antt =====
-- Lists with no text twice.
use Prim.Native.String.{compare}
use text.Mathlib.Text.{is_le}
use auto_builder.Base.{
  suc, ◌≤◌, true, not, ◌==◌, length, length-select, All, String, Bool, false, List, [], ◌∷◌, ◌++◌,
  ◌≡◌, refl, ◌∙◌, inl, inr, elem, select, arith, eq_iff, elem-append, Bool-cases, IsDistinct,
}
use auto_builder.Sessions.State.{
  sort_texts, place_text, elem-sort_texts, elem-place_text, elem-select,
}

pub place_text-IsDistinct :
    (x : String) (xs : List String)
    → elem x xs ≡ false
    → IsDistinct xs
    → IsDistinct (place_text x xs)
unfolding place_text elem
place_text-IsDistinct x [] new d = (refl, tt)
place_text-IsDistinct x (y ∷ ys) new d = elim (Bool-cases (is_le (compare x y))) [
  | inl e ↦ rw e (new, d)
  | inr e ↦ rw e (
    ground (arith, elem-place_text y x ys, eq_iff x y, eq_iff y x, new, d.0),
    place_text-IsDistinct x ys (ground (arith, new)) d.1,
  )
]

pub sort_texts-IsDistinct : (xs : List String) → IsDistinct xs → IsDistinct (sort_texts xs)
unfolding sort_texts
sort_texts-IsDistinct [] d = tt
sort_texts-IsDistinct (x ∷ xs) d =
    place_text-IsDistinct x (sort_texts xs) (elem-sort_texts x xs ∙ d.0)
      (sort_texts-IsDistinct xs d.1)

pub append-IsDistinct :
    (xs : List String) (y : String) → IsDistinct xs → elem y xs ≡ false → IsDistinct (xs ++ y ∷ [])
unfolding elem
append-IsDistinct [] y d new = (refl, tt)
append-IsDistinct (x ∷ xs) y d new = (
  ground (arith, elem-append x xs (y ∷ []), eq_iff x y, eq_iff y x, d.0, new),
  append-IsDistinct xs y d.1 (ground (arith, new)),
)

pub select-IsDistinct :
    (p : String → Bool) (xs : List String) → IsDistinct xs → IsDistinct (select p xs)
unfolding select
select-IsDistinct p [] d = tt
select-IsDistinct p (x ∷ xs) d = elim (Bool-cases (p x)) [
  | inl e ↦ rw e (ground (arith, elem-select p x xs, d.0), select-IsDistinct p xs d.1)
  | inr e ↦ rw e (select-IsDistinct p xs d.1)
]

remaining-elem :
    (x : String) (xs ys : List String)
    → elem x xs ≡ false
    → All (λ n. elem n ys ≡ true) xs
    → All (λ n. elem n (select (λ y. not (y == x)) ys) ≡ true) xs
unfolding elem
remaining-elem x [] ys new h = tt
remaining-elem x (z ∷ xs) ys new h = (
  ground (arith, elem-select (λ y. not (y == x)) z ys, h.0, new),
  remaining-elem x xs ys (ground (arith, new)) h.1,
)

length-remaining :
    (x : String) (ys : List String)
    → elem x ys ≡ true
    → suc (length (select (λ y. not (y == x)) ys)) ≤ length ys
unfolding select elem
length-remaining x [] h = cc
length-remaining x (y ∷ ys) h =
    ground (arith, length-remaining x ys, length-select (λ z. not (z == x)) ys)

-- Distinct names that are all on a list are no more than it holds.
pub IsDistinct-length :
    (xs ys : List String) → IsDistinct xs → All (λ n. elem n ys ≡ true) xs → length xs ≤ length ys
IsDistinct-length [] ys d h = omega arith
IsDistinct-length (x ∷ xs) ys d h =
    let fewer = length-remaining x ys h.0 in
    let rest =
      IsDistinct-length xs (select (λ y. not (y == x)) ys) d.1 (remaining-elem x xs ys d.0 h.1) in
    omega (arith, fewer, rest)
