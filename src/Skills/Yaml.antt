-- ===== src/Skills/Yaml.antt =====
-- What `yaml.safe_load` returns for a frontmatter, with texts as the keys of its mappings.
use auto_builder.Base.{
  ℕ, zero, suc, String, Bool, true, false, ◌==◌, ◌||◌, not, nat_eq, if◌then◌else◌,
}
use auto_builder.Model.Values.{is_text}
use auto_builder.Skills.{ℤ, pos, negsuc}

-- A float is the number of its 64 bits. `other` is an object of another type, such as a date, and tells
-- whether Python takes it for true.
mutual
  pub data Yaml : Type 0 where
    null : Yaml
    bool : Bool → Yaml
    int : ℤ → Yaml
    float : (bits : ℕ) → Yaml
    text : String → Yaml
    list : YamlItems → Yaml
    dict : YamlFields → Yaml
    other : (is_true : Bool) → Yaml

  pub data YamlItems : Type 0 where
    nil : YamlItems
    cons : Yaml → YamlItems → YamlItems

  pub data YamlFields : Type 0 where
    end : YamlFields
    field : String → Yaml → YamlFields → YamlFields

-- `d.get(key)`; a missing key and a None are the same.
unfoldable pub get : YamlFields → String → Yaml
get end key = null
get (field k v fs) key = if k == key then v else get fs key

-- `key in d`
unfoldable pub has : YamlFields → String → Bool
has end key = false
has (field k v fs) key = if k == key then true else has fs key

-- `bool(v)`: of the floats, 0.0 and -0.0 are false.
abbrev pub truthy : Yaml → Bool
truthy null = false
truthy (bool b) = b
truthy (int (pos zero)) = false
truthy (int (pos (suc _))) = true
truthy (int (negsuc _)) = true
truthy (float bits) = not (nat_eq bits 0 || nat_eq bits 9223372036854775808)
truthy (text s) = is_text s
truthy (list nil) = false
truthy (list (cons _ _)) = true
truthy (dict end) = false
truthy (dict (field _ _ _)) = true
truthy (other is_true) = is_true

abbrev pub is_none : Yaml → Bool
is_none null = true
is_none _ = false
