-- ===== src/Skills/Frontmatter.antt =====
-- skills/parser.py: the check of a SKILL.md's frontmatter, its triggers and its cascades, over what the
-- YAML parser returns. `upper` is str.upper, and `str` Python's text of a value.
pub mod Valid
use auto_builder.Base.{
  String, Option, none, some, Bool, true, false, List, [], ◌∷◌, ◌++◌, not, ◌&&◌, ◌||◌, ◌==◌,
  if◌then◌else◌,
}
use auto_builder.Skills.Yaml.{
  Yaml, null, bool, int, float, text, list, dict, YamlItems, nil, cons, YamlFields, end, field, get,
  has, truthy, is_none,
}
use auto_builder.Skills.{
  TriggerType, deliverable_type, file_pattern, tag_match, explicit, always, TriggerSpec,
}

-- The messages.
pub data FieldError : Type 0 where
  missing_name missing_description name_not_string description_not_string : FieldError
  triggers_not_list tags_not_list applies_to_not_list priority_not_number : FieldError
  cascades_not_list : FieldError

abbrev pub is_string : Yaml → Bool
is_string (text _) = true
is_string _ = false

abbrev pub is_list : Yaml → Bool
is_list (list _) = true
is_list _ = false

-- `isinstance(v, (int, float))`: a Boolean is an int.
abbrev pub is_number : Yaml → Bool
is_number (int _) = true
is_number (float _) = true
is_number (bool _) = true
is_number _ = false

abbrev pub error_if : Bool → FieldError → List FieldError
error_if true e = e ∷ []
error_if false e = []

-- A field that is given must pass the test.
abbrev pub unless_none : Yaml → (Yaml → Bool) → FieldError → List FieldError
unless_none v test e = error_if (not (is_none v) && not (test v)) e

unfoldable pub validate_skill_frontmatter : YamlFields → List FieldError
unfolding get has
validate_skill_frontmatter f =
    error_if (not (has f "name") || not (truthy (get f "name"))) missing_name
    ++ (error_if (not (has f "description") || not (truthy (get f "description")))
          missing_description
        ++ (unless_none (get f "name") is_string name_not_string
            ++ (unless_none (get f "description") is_string description_not_string
                ++ (unless_none (get f "triggers") is_list triggers_not_list
                    ++ (unless_none (get f "tags") is_list tags_not_list
                        ++ (unless_none (get f "applies_to") is_list applies_to_not_list
                            ++ (unless_none (get f "priority") is_number priority_not_number
                                ++ unless_none (get f "cascades") is_list cascades_not_list)))))))

-- TriggerType(key)
unfoldable pub parse_trigger_type : String → Option TriggerType
parse_trigger_type key =
    if key == "DELIVERABLE_TYPE"
    then some deliverable_type
    else if key == "FILE_PATTERN"
    then some file_pattern
    else if key == "TAG_MATCH"
    then some tag_match
    else if key == "EXPLICIT"
    then some explicit
    else if key == "ALWAYS"
    then some always
    else none

module _ (upper : String → String) (str : Yaml → String) where
  abbrev pub trigger_value : Yaml → String
  trigger_value null = ""
  trigger_value (bool true) = ""
  trigger_value v = str v

  -- The triggers of one item.
  unfoldable pub item_triggers : YamlFields → List TriggerSpec
  unfolding parse_trigger_type
  item_triggers end = []
  item_triggers (field key v rest) =
      let others = item_triggers rest in
      elim (parse_trigger_type (upper key)) [
        | none ↦ others
        | some type ↦ record { trigger_type = type; value = trigger_value v } ∷ others
      ]

  unfoldable pub items_triggers : YamlItems → List TriggerSpec
  unfolding item_triggers
  items_triggers nil = []
  items_triggers (cons (dict item) vs) = item_triggers item ++ items_triggers vs
  items_triggers (cons _ vs) = items_triggers vs

  abbrev pub parse_triggers : Yaml → List TriggerSpec
  parse_triggers (list vs) = items_triggers vs
  parse_triggers _ = []

abbrev pub reference_of : Yaml → List String
reference_of (text name) = name ∷ []
reference_of _ = []

unfoldable pub items_references : YamlItems → List String
unfolding get
items_references nil = []
items_references (cons (dict item) vs) = reference_of (get item "reference") ++ items_references vs
items_references (cons _ vs) = items_references vs

abbrev pub parse_cascades : Yaml → List String
parse_cascades (list vs) = items_references vs
parse_cascades _ = []
