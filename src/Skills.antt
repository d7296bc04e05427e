-- ===== src/Skills.antt =====
-- skills/library.py: the entries of the skill index, the scan that builds it, and what it matches.
-- `split`, `lower`, `fnmatch` and the test of one text within another are the Python library's.
pub mod Matching
pub mod Scanning
pub mod Cascades
pub mod Yaml
pub mod Frontmatter
use Prim.Native.String.compare
use Prim.Native.String.{compare}
use text.Mathlib.Text.{is_le}
use auto_builder.Base.{
  ℕ, suc, ◌+◌, String, Option, none, some, Bool, true, false, List, [], ◌∷◌, ◌++◌, map, select, not,
  any, ltb, leb, nat_eq, ◌==◌, ◌&&◌, ◌||◌, if◌then◌else◌, elem, is_nil, is_truthy, Dict, sort_by,
  length, distinct,
}

pub data TriggerType : Type 0 where
  deliverable_type file_pattern tag_match explicit always : TriggerType

pub record TriggerSpec : Type 0 where
  pub trigger_type : TriggerType
  pub value : String

-- `negsuc n` is -(n + 1).
pub data ℤ : Type 0 where
  pos : ℕ → ℤ
  negsuc : ℕ → ℤ

-- A cascade is the name that it refers to.
pub record SkillEntry : Type 0 where
  pub name : String
  pub description : String
  pub triggers : List TriggerSpec
  pub tags : List String
  pub priority : ℤ
  pub cascades : List String
  pub path : Option String

pub record SkillMatchContext : Type 0 where
  pub deliverable_type : Option String
  pub file_patterns : List String
  pub tags : List String
  pub requested_skills : List String

-- fnmatch.fnmatch(file, pattern), s.split(), s.lower(), " ".join(…), len(s), and `s in t`.
pub record Texts : Type 0 where
  pub fnmatch : String → String → Bool
  pub split : String → List String
  pub lower : String → String
  pub join : List String → String
  pub size : String → ℕ
  pub within : String → String → Bool

abbrev pub stopwords : List String
stopwords =
    "this" ∷ "that" ∷ "with" ∷ "from" ∷ "will" ∷ "have" ∷ "been" ∷ "when" ∷ "what" ∷ "which"
    ∷ "where" ∷ "there" ∷ "their" ∷ "about" ∷ "should" ∷ "would" ∷ "could" ∷ "does" ∷ "into"
    ∷ "also" ∷ "more" ∷ "most" ∷ "some" ∷ "than" ∷ "then" ∷ "them" ∷ "they" ∷ "these" ∷ "those"
    ∷ "other" ∷ "each" ∷ "every" ∷ "such" ∷ "only" ∷ "very" ∷ "just" ∷ "over" ∷ "after" ∷ "before"
    ∷ "between" ∷ "under" ∷ "through" ∷ "during" ∷ "above" ∷ "below" ∷ "skill" ∷ "provides"
    ∷ "guidance" ∷ "guide" ∷ []

abbrev pub is_value : Option String → String → Bool
is_value none value = false
is_value (some s) value = value == s

abbrev pub lower_type : (String → String) → Option String → List String
lower_type lower none = []
lower_type lower (some String.[]) = []
lower_type lower (some (String.◌∷◌ c s)) = lower (String.◌∷◌ c s) ∷ []

module _ (t : Texts) where
  unfoldable pub is_match : SkillEntry → SkillMatchContext → TriggerType → String → Bool
  unfolding elem any
  is_match entry context tag_match value = any (λ tag. elem tag context.tags) entry.tags
  is_match entry context explicit value = elem entry.name context.requested_skills
  is_match entry context deliverable_type value = is_value context.deliverable_type value
  is_match entry context file_pattern value = any (λ f. t.fnmatch f value) context.file_patterns
  is_match entry context always value = true

  unfoldable pub matched_types :
      SkillEntry → SkillMatchContext → List TriggerSpec → List TriggerType
  unfolding is_match
  matched_types entry context [] = []
  matched_types entry context (s ∷ specs) =
      let rest = matched_types entry context specs in
      if is_match entry context s.trigger_type s.value then s.trigger_type ∷ rest else rest

  abbrev pub match_triggers : SkillEntry → SkillMatchContext → List TriggerType
  match_triggers entry context = matched_types entry context entry.triggers

  -- The words with more than four letters that are no stopwords.
  unfoldable pub keywords : String → List String
  unfolding elem select distinct
  keywords description = distinct (
      map t.lower
        (select (λ w. ltb 4 (t.size w) && not (elem (t.lower w) stopwords)) (t.split description)))

  unfoldable pub context_text : SkillMatchContext → String
  context_text context = t.join (
      (lower_type t.lower context.deliverable_type ++ map t.lower context.tags)
      ++ map t.lower context.file_patterns)

  unfoldable pub match_description_keywords : String → SkillMatchContext → Bool
  unfolding keywords context_text select
  match_description_keywords description context =
      let words = keywords description in
      if is_nil words
      then false
      else leb 2 (length (select (λ w. t.within w (context_text context)) words))

  -- A trigger matches, or with no triggers the description does.
  unfoldable pub is_matched : SkillMatchContext → SkillEntry → Bool
  unfolding matched_types match_description_keywords
  is_matched context entry =
      if is_nil entry.triggers
      then match_description_keywords entry.description context
      else not (is_nil (match_triggers entry context))

-- a < b
unfoldable pub lt_int : ℤ → ℤ → Bool
lt_int (pos a) (pos b) = ltb a b
lt_int (pos a) (negsuc b) = false
lt_int (negsuc a) (pos b) = true
lt_int (negsuc a) (negsuc b) = ltb b a

-- The key `(-priority, name)`.
abbrev pub ranks_before : SkillEntry → SkillEntry → Bool
ranks_before a b =
    if lt_int b.priority a.priority
    then true
    else if lt_int a.priority b.priority
    then false
    else is_le (compare a.name b.name)

abbrev pub entries : Dict SkillEntry → List SkillEntry
entries = map (λ (p : String × SkillEntry). p.1)

unfoldable pub match_skills : Texts → Dict SkillEntry → SkillMatchContext → List SkillEntry
unfolding is_matched lt_int select sort_by
match_skills t index context = sort_by ranks_before (select (is_matched t context) (entries index))
