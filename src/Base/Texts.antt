-- ===== src/Base/Texts.antt =====
-- Python's order of texts is total.
use Prim.Native.Nat.{ℕ, Ordering, compare as compare_ℕ}
use Prim.Native.Char.{code}
use Prim.Native.String.compare
use Prim.Native.String.{String, compare, then}
use mathlib.Core.Path.{◌≡◌, refl}
use mathlib.Core.Bool.{true, false}
use native.Mathlib.Omega.{arith}
use text.Mathlib.Text.{is_le}

total_step :
    (a b : ℕ) (o p : Ordering)
    → (is_le o ≡ false → is_le p ≡ true)
    → is_le (then (compare_ℕ a b) o) ≡ false
    → is_le (then (compare_ℕ b a) p) ≡ true
total_step a b o p h e = ground arith

pub is_le-total : (x y : String) → is_le (compare x y) ≡ false → is_le (compare y x) ≡ true
is_le-total String.[] String.[] e = refl
is_le-total String.[] (String.◌∷◌ d t) e =
    let bad : is_le Ordering.lt ≡ false = rw (compare.nil-cons d t) at e in cc
is_le-total (String.◌∷◌ c s) String.[] e = rw (compare.nil-cons c s) refl
is_le-total (String.◌∷◌ c s) (String.◌∷◌ d t) e = rw (compare.cons-cons d c t s) (
    total_step (code c) (code d) (compare s t) (compare t s) (is_le-total s t)
      (rw (compare.cons-cons c d s t) at e))
