-- ===== src/Workflows/Stages.antt =====
-- workflows/stages.py: the stage state of a workflow, and its advance to the next stage.
pub mod Progress
pub mod Tool
use auto_builder.Base.{
  ℕ, zero, suc, ◌+◌, String, Bool, true, false, Option, none, some, List, [], ◌∷◌, ◌++◌, map, elem,
  ltb, nat_eq, not, ◌==◌, if◌then◌else◌,
}
use auto_builder.Workflows.Manifest.{StageDef}

pub data StageStatus : Type 0 where
  pending active completed failed : StageStatus

-- The state keys STAGE_CURRENT, STAGE_INDEX, STAGE_STATUS and STAGE_COMPLETED_LIST.
pub record StageState : Type 0 where
  pub current_stage : String
  pub stage_index : ℕ
  pub stage_status : StageStatus
  pub stages_completed : List String

abbrev pub stage_names : List StageDef → List String
stage_names = map (λ (s : StageDef). s.name)

-- The stage list itself, STAGE_WORKFLOW_STAGES, is the manifest's.
unfoldable pub initialize_stage_state : List StageDef → StageState
initialize_stage_state [] = record {
  current_stage = "";
  stage_index = 0;
  stage_status = pending;
  stages_completed = [];
}
initialize_stage_state (first ∷ rest) = record {
  current_stage = first.name;
  stage_index = 0;
  stage_status = pending;
  stages_completed = [];
}

-- `names.index(target)`, for a name that is there.
unfoldable pub index_of : String → List String → ℕ
index_of target [] = 0
index_of target (n ∷ names) = if n == target then 0 else suc (index_of target names)

-- `names[i]`; past the end Python raises an IndexError.
unfoldable pub name_at : List String → ℕ → Option String
name_at [] i = none
name_at (n ∷ names) zero = some n
name_at (n ∷ names) (suc i) = name_at names i

pub data StageResult : Type 0 where
  no_stages stage_not_found revisit same_stage skip index_error : StageResult
  advanced : StageState → StageResult

unfoldable pub complete_current : Option String → String → ℕ → List String → StageResult
complete_current none target target_index existing = index_error
complete_current (some name) target target_index existing = advanced (record {
  current_stage = target;
  stage_index = target_index;
  stage_status = active;
  stages_completed = existing ++ name ∷ [];
})

unfoldable pub reconfigure_named : StageState → List String → String → StageResult
unfolding index_of name_at complete_current elem
reconfigure_named state names target =
    let target_index = index_of target names in
    if not (elem target names)
    then stage_not_found
    else if ltb target_index state.stage_index
    then revisit
    else if nat_eq target_index state.stage_index
    then same_stage
    else if ltb (state.stage_index + 1) target_index
    then skip
    else complete_current (name_at names state.stage_index) target target_index
        state.stages_completed

-- The empty delta of a workflow with no stages is `no_stages`; each ValueError is a result.
unfoldable pub reconfigure_stage : StageState → List StageDef → String → StageResult
unfolding reconfigure_named
reconfigure_stage state [] target = no_stages
reconfigure_stage state (s ∷ stages) target =
    reconfigure_named state (stage_names (s ∷ stages)) target
