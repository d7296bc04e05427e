-- ===== src/Sessions/State.antt =====
-- A session's state as a Python dictionary: assignment, keys, and the tests on the text of a key.
use Prim.Native.Char.{code}
use Prim.Native.String
use Prim.Native.String.append
use Prim.Native.String.compare
use Prim.Native.String.{compare}
use package.text.Mathlib.Text.{is_le}
use auto_builder.Base.{
  ℕ, String, Bool, true, false, List, [], ◌∷◌, ◌++◌, ◌≡◌, refl, ap, ◌∙◌, nat_eq, ◌==◌, ◌&&◌, ◌||◌,
  if◌then◌else◌, elem, select, is_nil, arith, eq_iff,
}
use auto_builder.Model.Values.{Value, null, end, field, State, get, has}
use auto_builder.Workflows.Manifest.{codes}

-- state[key] = value
unfoldable pub put : String → Value → State → State
put key v end = field key v end
put key v (field k w fs) =
    let rest = put key v fs in if k == key then field k v fs else field k w rest

pub get-put :
    (key other : String) (v : Value) (fs : State)
    → get (put key v fs) other ≡ (if key == other then v else get fs other)
unfolding get put
get-put key other v end = ground arith
get-put key other v (field k w fs) =
    ground (arith, get-put key other v fs, eq_iff k key, eq_iff k other, eq_iff key other)

pub has-put :
    (key other : String) (v : Value) (fs : State)
    → has (put key v fs) other ≡ (key == other || has fs other)
unfolding has put
has-put key other v end = ground arith
has-put key other v (field k w fs) =
    ground (arith, has-put key other v fs, eq_iff k key, eq_iff k other, eq_iff key other)

unfoldable pub keys : State → List String
keys end = []
keys (field k _ fs) = k ∷ keys fs

pub elem-keys : (key : String) (fs : State) → elem key (keys fs) ≡ has fs key
unfolding elem keys has
elem-keys key end = refl
elem-keys key (field k v fs) = ground (arith, elem-keys key fs)

pub get-missing : (key : String) (fs : State) → has fs key ≡ false → get fs key ≡ null
unfolding get has
get-missing key end h = refl
get-missing key (field k v fs) h = ground (arith, get-missing key fs)

-- {**first, **second}
unfoldable pub merge : State → State → State
unfolding put
merge first end = first
merge first (field k v fs) = merge (put k v first) fs

unfoldable pub is_prefix : List ℕ → List ℕ → Bool
is_prefix [] ys = true
is_prefix (x ∷ xs) [] = false
is_prefix (x ∷ xs) (y ∷ ys) = nat_eq x y && is_prefix xs ys

unfoldable pub same_codes : List ℕ → List ℕ → Bool
same_codes [] [] = true
same_codes [] (_ ∷ _) = false
same_codes (_ ∷ _) [] = false
same_codes (x ∷ xs) (y ∷ ys) = nat_eq x y && same_codes xs ys

unfoldable pub is_suffix : List ℕ → List ℕ → Bool
unfolding same_codes
is_suffix xs [] = is_nil xs
is_suffix xs (y ∷ ys) = same_codes xs (y ∷ ys) || is_suffix xs ys

-- key.startswith(prefix)
abbrev pub starts_with : String → String → Bool
starts_with key prefix = is_prefix (codes prefix) (codes key)

-- key.endswith(suffix)
abbrev pub ends_with : String → String → Bool
ends_with key suffix = is_suffix (codes suffix) (codes key)

pub codes-append : (s t : String) → codes (String.◌++◌ s t) ≡ codes s ++ codes t
codes-append String.[] t = ap codes (String.append.nil t)
codes-append (String.◌∷◌ c s) t =
    ap codes (String.append.cons c s t) ∙ ap (λ cs. code c ∷ cs) (codes-append s t)

is_prefix-append : (xs ys : List ℕ) → is_prefix xs (xs ++ ys) ≡ true
unfolding is_prefix
is_prefix-append [] ys = refl
is_prefix-append (x ∷ xs) ys = ground (arith, is_prefix-append xs ys)

pub starts_with-append : (s t : String) → starts_with (String.◌++◌ s t) s ≡ true
starts_with-append s t = rw (codes-append s t) (is_prefix-append (codes s) (codes t))

-- f"{DELIVERABLE_STATUS_PREFIX}{deliverable_id}"
abbrev pub status_key : String → String
status_key did = String.◌++◌ "deliverable_status:" did

-- sorted(…)
unfoldable pub place_text : String → List String → List String
place_text x [] = x ∷ []
place_text x (y ∷ ys) =
    let rest = place_text x ys in if is_le (compare x y) then x ∷ y ∷ ys else y ∷ rest

unfoldable pub sort_texts : List String → List String
unfolding place_text
sort_texts [] = []
sort_texts (x ∷ xs) = place_text x (sort_texts xs)

pub elem-place_text :
    (z x : String) (ys : List String) → elem z (place_text x ys) ≡ (x == z || elem z ys)
unfolding elem place_text
elem-place_text z x [] = refl
elem-place_text z x (y ∷ ys) = ground (arith, elem-place_text z x ys)

pub elem-sort_texts : (z : String) (xs : List String) → elem z (sort_texts xs) ≡ elem z xs
unfolding elem sort_texts
elem-sort_texts z [] = refl
elem-sort_texts z (x ∷ xs) =
    ground (arith, elem-place_text z x (sort_texts xs), elem-sort_texts z xs)

pub elem-select :
    (p : String → Bool) (z : String) (xs : List String) → elem z (select p xs) ≡ (p z && elem z xs)
unfolding elem select
elem-select p z [] = ground arith
elem-select p z (x ∷ xs) = ground (arith, elem-select p z xs, eq_iff x z)
