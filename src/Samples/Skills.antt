-- ===== src/Samples/Skills.antt =====
-- Sample skills: `a` and `b` lead to each other and `b` to `c`, and a file that does not parse.
use auto_builder.Base.{
  String, none, some, true, false, List, [], ◌∷◌, ◌≡◌, ◌↔◌, ◌⊎◌, refl, elem, lookup, IsIn, Dict,
  IsOrdered, if◌then◌else◌, ◌==◌, Bool-cases, inl, inr,
}
use auto_builder.Skills.Yaml.{YamlFields, field, text, end}
use auto_builder.Skills.{always, SkillEntry, SkillMatchContext, Texts, pos, match_skills, entries}
use auto_builder.Skills.Matching.{Fits, Ranks, match_skills-Fits}
use auto_builder.Skills.Cascades.{resolve_cascades}
use auto_builder.Skills.Cascades.Closure.{Wanted}
use auto_builder.Skills.Cascades.Reached.{resolve_cascades-Wanted}
use auto_builder.Skills.Scanning.{Disk, Library, files_of, scan, check_for_changes}
use auto_builder.Skills.Scanning.Precedence.{first_named, or_else, IsSeparate, scan-lookup}
use auto_builder.Skills.Scanning.Changes.{check_for_changes-unparsed}
use auto_builder.Skills.Frontmatter.{validate_skill_frontmatter}
use auto_builder.Skills.Frontmatter.Valid.{IsFrontmatter, validate_skill_frontmatter_iff}

abbrev skill : String → List String → SkillEntry
skill name cascades = record {
  name = name;
  description = "a skill";
  triggers = record { trigger_type = always; value = "" } ∷ [];
  tags = [];
  priority = pos 0;
  cascades = cascades;
  path = none;
}

abbrev index : Dict SkillEntry
index =
    ("a", skill "a" ("b" ∷ []))
    ∷ ("b", skill "b" ("a" ∷ "c" ∷ []))
    ∷ ("c", skill "c" ("gone" ∷ []))
    ∷ []

abbrev texts : Texts
texts = record {
  fnmatch = λ f pattern. f == pattern;
  split = λ s. s ∷ [];
  lower = λ s. s;
  join = λ parts. "";
  size = λ s. 7;
  within = λ s t. false;
}

abbrev context : SkillMatchContext
context = record { deliverable_type = none; file_patterns = []; tags = []; requested_skills = [] }

match_skills-Fits_example :
    IsOrdered Ranks (match_skills texts index context)
    × ((e : SkillEntry)
        → IsIn e (match_skills texts index context)
          ↔ (IsIn e (entries index) × Fits texts context e))
match_skills-Fits_example = match_skills-Fits texts index context

resolve_cascades-Wanted_example :
    (out : List SkillEntry) × (resolve_cascades index (skill "a" ("b" ∷ []) ∷ []) ≡ some out)
    × ((e : SkillEntry)
        → IsIn e out ↔ (
            IsIn e (skill "a" ("b" ∷ []) ∷ [])
            ⊎ ((c : String) × Wanted index (skill "a" ("b" ∷ []) ∷ []) c
                × (lookup c index ≡ some e))))
unfolding lookup
resolve_cascades-Wanted_example =
    resolve_cascades-Wanted index (skill "a" ("b" ∷ []) ∷ []) (refl, tt)

-- The path of a file begins with its directory's first letter here.
abbrev disk : Disk
disk = record {
  listing = λ dir.
      if dir == "global"
      then some ("g/a" ∷ "g/bad" ∷ [])
      else if dir == "project"
      then some ("p/a" ∷ [])
      else none;
  mtime = λ path. 0;
  exists = λ path. true;
  is_inside = λ path dir. if path == "p/a" then dir == "project" else dir == "global";
  parse = λ path. if path == "g/bad" then none else some (skill "a" []);
}

abbrev library : Library
library = record {
  global_dir = "global";
  workflow_dir = none;
  project_dir = some "project";
  index = [];
  file_mtimes = [];
}

separate : IsSeparate disk library
separate = record {
  inside = λ dir. elim (Bool-cases (dir == "global")) [
    | inl e ↦ rw (e, files_of) (refl, (refl, tt))
    | inr e ↦ elim (Bool-cases (dir == "project")) [
      | inl f ↦ rw (e, f, files_of) (refl, tt)
      | inr f ↦ rw (e, f, files_of) tt
    ]
  ];
  global_workflow = tt;
  global_project = (refl, (refl, tt));
  workflow_project = tt;
}

scan-lookup_example :
    lookup "a" (scan disk library).index
    ≡ or_else (first_named disk "a" (files_of disk library.project_dir)) (
        or_else
          (first_named disk "a" (files_of disk library.workflow_dir))
          (first_named disk "a" (files_of disk (some library.global_dir))))
scan-lookup_example = scan-lookup disk library "a" separate

-- The files have been written again, so that each parses.
abbrev later : Disk
later = record disk { mtime = λ path. 1; parse = λ path. some (skill "a" []) }

check_for_changes-unparsed_example : check_for_changes later (scan disk library) ≡ true
unfolding elem
check_for_changes-unparsed_example = check_for_changes-unparsed disk later library "g/bad" refl refl

abbrev frontmatter : YamlFields
frontmatter = field "name" (text "a") (field "description" (text "") end)

validate_skill_frontmatter_iff_example :
    (validate_skill_frontmatter frontmatter ≡ []) ↔ IsFrontmatter frontmatter
validate_skill_frontmatter_iff_example = validate_skill_frontmatter_iff frontmatter
