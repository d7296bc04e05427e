-- ===== src/Workflows/Manifest.antt =====
-- workflows/manifest.py: the parts of a manifest that the engine reads, and its validation.
-- `is_space` tells the code points that `str.strip` removes.
pub mod Names
use Prim.Native.Char.{code}
use auto_builder.Base.{
  String, Bool, true, false, List, [], ◌∷◌, ◌++◌, map, elem, if◌then◌else◌, Option, none, some, ℕ,
  leb, nat_eq, ◌&&◌, ◌||◌, not, any, is_nil,
}
use auto_builder.Model.Values.{Fields}

pub data ValidatorType : Type 0 where
  deterministic llm approval : ValidatorType

pub data ValidatorSchedule : Type 0 where
  per_deliverable per_batch per_taskgroup per_stage : ValidatorSchedule

pub data StageApproval : Type 0 where
  auto director ceo : StageApproval

pub data CompletionCondition : Type 0 where
  all_verified all_deliverables_planned : CompletionCondition

pub record ValidatorDefinition : Type 0 where
  pub name : String
  pub type : ValidatorType
  pub schedule : ValidatorSchedule
  pub required : Bool

pub record StageDef : Type 0 where
  pub name : String
  pub validators : List ValidatorDefinition
  pub completion_criteria : CompletionCondition
  pub approval : StageApproval

pub record CompletionLayerDef : Type 0 where
  pub name : String
  pub evidence_sources : List String

pub record WorkflowManifest : Type 0 where
  pub name : String
  pub description : String
  pub stages : List StageDef
  pub validators : List ValidatorDefinition
  pub layers : Option (List CompletionLayerDef)
  pub triggers : List Fields

pub record ValidatorResult : Type 0 where
  pub validator_name : String
  pub passed : Bool
  pub message : String

-- A code point from one ASCII character to another.
abbrev pub is_between : ℕ → ℕ → ℕ → Bool
is_between first last n = leb first n && leb n last

-- `[a-z]`
abbrev pub is_letter : ℕ → Bool
is_letter = is_between b'a' b'z'

-- `[a-z0-9]`
abbrev pub is_word : ℕ → Bool
is_word n = is_letter n || is_between b'0' b'9' n

-- The text's code points.
abbrev pub codes : String → List ℕ
codes String.[] = []
codes (String.◌∷◌ first rest) = code first ∷ codes rest

-- `^[a-z][a-z0-9]*(-[a-z0-9]+)*$`: in a word, or behind a dash. `$` also matches before a last
-- newline.
mutual
  pub in_word : List ℕ → Bool
  in_word [] = true
  in_word (c ∷ cs) =
      let behind = behind_dash cs in
      let within = in_word cs in
      if is_word c then within else if nat_eq c b'-' then behind else nat_eq c 10 && is_nil cs

  pub behind_dash : List ℕ → Bool
  behind_dash [] = false
  behind_dash (c ∷ cs) = let within = in_word cs in if is_word c then within else false

unfoldable pub is_kebab : List ℕ → Bool
unfolding in_word behind_dash
is_kebab [] = false
is_kebab (c ∷ cs) = is_letter c && in_word cs

-- `if name in names: raise …; names.append(name)`, over the names in order.
unfoldable pub no_duplicate : List String → List String → Bool
unfolding elem
no_duplicate seen [] = true
no_duplicate seen (n ∷ names) =
    let rest = no_duplicate (n ∷ seen) names in if elem n seen then false else rest

abbrev pub validator_names : List ValidatorDefinition → List String
validator_names = map (λ (v : ValidatorDefinition). v.name)

unfoldable pub stage_validator_names : List StageDef → List String
stage_validator_names [] = []
stage_validator_names (s ∷ stages) = validator_names s.validators ++ stage_validator_names stages

unfoldable pub has_unique_names : WorkflowManifest → Bool
unfolding no_duplicate stage_validator_names
has_unique_names m =
    no_duplicate [] (map (λ (s : StageDef). s.name) m.stages)
    && no_duplicate [] (validator_names m.validators ++ stage_validator_names m.stages)

-- Whether the constructor accepts the fields; otherwise it raises a ValidationError.
unfoldable pub is_valid_manifest : (ℕ → Bool) → WorkflowManifest → Bool
unfolding is_kebab has_unique_names any
is_valid_manifest is_space m =
    any (λ c. not (is_space c)) (codes m.description)
    && (is_kebab (codes m.name) && has_unique_names m)
