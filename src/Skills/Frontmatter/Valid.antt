-- ===== src/Skills/Frontmatter/Valid.antt =====
-- Which frontmatter the parser accepts.
use auto_builder.Base.{
  String, Bool, true, false, List, [], ◌∷◌, ◌++◌, ◌≡◌, refl, ap, ◌||◌, ◌↔◌, ◌⊎◌, inl, inr, not,
  arith, Bool-cases,
}
use auto_builder.Model.Values.{is_text}
use auto_builder.Skills.Yaml.{
  Yaml, null, bool, int, float, text, list, dict, other, YamlFields, end, field, get, has, truthy,
  is_none,
}
use auto_builder.Skills.Frontmatter.{
  FieldError, error_if, unless_none, is_string, is_list, is_number, validate_skill_frontmatter,
}

-- A text that is not empty.
abbrev pub IsName : Yaml → Type 0
IsName v = (s : String) × (v ≡ text s) × (is_text s ≡ true)

abbrev pub IsAbsentOr : (Yaml → Bool) → Yaml → Type 0
IsAbsentOr test v = (v ≡ null) ⊎ (test v ≡ true)

pub record IsFrontmatter (f : YamlFields) : Type 0 where
  pub name : IsName (get f "name")
  pub description : IsName (get f "description")
  pub triggers : IsAbsentOr is_list (get f "triggers")
  pub tags : IsAbsentOr is_list (get f "tags")
  pub applies_to : IsAbsentOr is_list (get f "applies_to")
  pub priority : IsAbsentOr is_number (get f "priority")
  pub cascades : IsAbsentOr is_list (get f "cascades")

nil-append : (xs ys : List FieldError) → (xs ++ ys ≡ []) ↔ ((xs ≡ []) × (ys ≡ []))
nil-append [] ys = (λ h. (refl, h), λ h. h.1)
nil-append (x ∷ xs) ys = (λ h. cc, λ h. cc (h.0))

has-truthy : (f : YamlFields) (key : String) → truthy (get f key) ≡ true → has f key ≡ true
unfolding get has
has-truthy end key h = cc
has-truthy (field k v fs) key h = ground (arith, has-truthy fs key)

error_if-nil : (b : Bool) (e : FieldError) → (error_if b e ≡ []) ↔ (b ≡ false)
error_if-nil true e = (λ h. cc, λ h. cc)
error_if-nil false e = (λ h. refl, λ h. refl)

absent_or :
    (v : Yaml) (test : Yaml → Bool) (e : FieldError)
    → is_none v ≡ false
    → (unless_none v test e ≡ []) ↔ IsAbsentOr test v
absent_or v test e some_value = rw some_value (elim (Bool-cases (test v)) [
  | inl b ↦ rw b (λ h. inr refl, λ h. refl)
  | inr b ↦
      rw b (λ h. cc, λ h. elim h [ inl gone ↦ let absent = ap is_none gone in cc | inr k ↦ cc ])
])

unless_none-nil :
    (v : Yaml) (test : Yaml → Bool) (e : FieldError)
    → (unless_none v test e ≡ []) ↔ IsAbsentOr test v
unless_none-nil null test e = (λ h. inl refl, λ h. refl)
unless_none-nil (bool b) test e = absent_or (bool b) test e refl
unless_none-nil (int n) test e = absent_or (int n) test e refl
unless_none-nil (float n) test e = absent_or (float n) test e refl
unless_none-nil (other b) test e = absent_or (other b) test e refl
unless_none-nil (text s) test e = absent_or (text s) test e refl
unless_none-nil (list vs) test e = absent_or (list vs) test e refl
unless_none-nil (dict fs) test e = absent_or (dict fs) test e refl

not_text :
    (v : Yaml)
    → is_string v ≡ false
    → is_none v ≡ false
    → ((truthy v ≡ true) × IsAbsentOr is_string v) ↔ IsName v
not_text v apart given = (
  λ h. absurd (elim h.1 [ inl gone ↦ let absent = ap is_none gone in cc | inr k ↦ cc ]),
  λ h. absurd (let is_one = ap is_string h.1 in cc),
)

IsName-checks : (v : Yaml) → ((truthy v ≡ true) × IsAbsentOr is_string v) ↔ IsName v
IsName-checks null = (λ h. cc, λ h. let is_one = ap is_string h.1 in cc)
IsName-checks (bool b) = not_text (bool b) refl refl
IsName-checks (int n) = not_text (int n) refl refl
IsName-checks (float n) = not_text (float n) refl refl
IsName-checks (other b) = not_text (other b) refl refl
IsName-checks (text s) = (λ h. (s, refl, h.0), λ h. (ground arith, inr refl))
IsName-checks (list vs) = not_text (list vs) refl refl
IsName-checks (dict fs) = not_text (dict fs) refl refl

required_iff :
    (f : YamlFields) (key : String) (e : FieldError)
    → (error_if (not (has f key) || not (truthy (get f key))) e ≡ []) ↔ (truthy (get f key) ≡ true)
required_iff f key e = (
  λ h. let passed = (error_if-nil _ e).0 h in ground arith,
  λ h. let there = has-truthy f key h in (error_if-nil _ e).1 (ground arith),
)

-- The check has nothing to say exactly of a mapping with a name and a description that are texts and
-- not empty, whose triggers, tags, applies_to and cascades are lists and whose priority is an int,
-- a Boolean or a float, as far as they are given.
pub validate_skill_frontmatter_iff :
    (f : YamlFields) → (validate_skill_frontmatter f ≡ []) ↔ IsFrontmatter f
unfolding validate_skill_frontmatter
validate_skill_frontmatter_iff f = (
  λ h.
      let a = (nil-append _ _).0 h in
      let b = (nil-append _ _).0 a.1 in
      let c = (nil-append _ _).0 b.1 in
      let d = (nil-append _ _).0 c.1 in
      let e = (nil-append _ _).0 d.1 in
      let g = (nil-append _ _).0 e.1 in
      let i = (nil-append _ _).0 g.1 in
      let j = (nil-append _ _).0 i.1 in
      record {
        name =
            (IsName-checks (get f "name")).0
              ((required_iff f "name" _).0 a.0, (unless_none-nil _ is_string _).0 c.0);
        description =
            (IsName-checks (get f "description")).0
              ((required_iff f "description" _).0 b.0, (unless_none-nil _ is_string _).0 d.0);
        triggers = (unless_none-nil _ is_list _).0 e.0;
        tags = (unless_none-nil _ is_list _).0 g.0;
        applies_to = (unless_none-nil _ is_list _).0 i.0;
        priority = (unless_none-nil _ is_number _).0 j.0;
        cascades = (unless_none-nil _ is_list _).0 j.1;
      },
  λ h.
      let name = (IsName-checks (get f "name")).1 h.name in
      let described = (IsName-checks (get f "description")).1 h.description in
      (nil-append _ _).1 (
        (required_iff f "name" _).1 name.0,
        (nil-append _ _).1 (
          (required_iff f "description" _).1 described.0,
          (nil-append _ _).1 (
            (unless_none-nil _ is_string _).1 name.1,
            (nil-append _ _).1 (
              (unless_none-nil _ is_string _).1 described.1,
              (nil-append _ _).1 (
                (unless_none-nil _ is_list _).1 h.triggers,
                (nil-append _ _).1 (
                  (unless_none-nil _ is_list _).1 h.tags,
                  (nil-append _ _).1 (
                    (unless_none-nil _ is_list _).1 h.applies_to,
                    (nil-append _ _).1 (
                      (unless_none-nil _ is_number _).1 h.priority,
                      (unless_none-nil _ is_list _).1 h.cascades,
                    ),
                  ),
                ),
              ),
            ),
          ),
        ),
      ),
)
