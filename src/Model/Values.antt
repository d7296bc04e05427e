-- ===== src/Model/Values.antt =====
-- The values of a session state: what JSON holds, with counts as natural numbers.
use auto_builder.Base.{ℕ, zero, suc, String, Bool, true, false, ◌==◌, if◌then◌else◌}

mutual
  pub data Value : Type 0 where
    null : Value
    bool : Bool → Value
    int : ℕ → Value
    text : String → Value
    list : Items → Value
    dict : Fields → Value

  pub data Items : Type 0 where
    nil : Items
    cons : Value → Items → Items

  pub data Fields : Type 0 where
    end : Fields
    field : String → Value → Fields → Fields

abbrev pub State : Type 0
State = Fields

-- `d.get(key)`; a missing key and a stored None are the same.
unfoldable pub get : Fields → String → Value
get end key = null
get (field k v fs) key = if k == key then v else get fs key

-- `key in d`
unfoldable pub has : Fields → String → Bool
has end key = false
has (field k v fs) key = if k == key then true else has fs key

abbrev pub is_text : String → Bool
is_text String.[] = false
is_text (String.◌∷◌ _ _) = true

abbrev pub is_positive : ℕ → Bool
is_positive zero = false
is_positive (suc _) = true

-- Python's `bool(v)`.
abbrev pub truthy : Value → Bool
truthy null = false
truthy (bool b) = b
truthy (int n) = is_positive n
truthy (text s) = is_text s
truthy (list nil) = false
truthy (list (cons _ _)) = true
truthy (dict end) = false
truthy (dict (field _ _ _)) = true

-- `v is None`
abbrev pub is_none : Value → Bool
is_none null = true
is_none _ = false

-- `v is True`
abbrev pub is_true : Value → Bool
is_true (bool b) = b
is_true _ = false

unfoldable pub count_items : Items → ℕ
count_items nil = 0
count_items (cons _ vs) = suc (count_items vs)
