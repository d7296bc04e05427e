-- ===== src/Workflows/Reports.antt =====
-- Completion reports: generate_completion_report of workflows/validators.py, and the layers of
-- workflows/completion.py, which reads persisted results.
pub mod Layers
use auto_builder.Base.{
  ℕ, zero, suc, String, Bool, true, false, Option, none, some, List, [], ◌∷◌, ◌++◌, map, select,
  ◌==◌, ◌&&◌, if◌then◌else◌, elem, is_nil, all, length,
}
use auto_builder.Workflows.Manifest.{CompletionLayerDef, ValidatorResult, WorkflowManifest}

abbrev pub default_verification_layers : List CompletionLayerDef
default_verification_layers =
    record {
      name = "functional";
      evidence_sources =
          "lint_check" ∷ "test_suite" ∷ "regression_tests" ∷ "integration_tests" ∷ [];
    }
    ∷ record {
      name = "architectural";
      evidence_sources = "code_review" ∷ "architecture_conformance" ∷ [];
    }
    ∷ record {
      name = "contract";
      evidence_sources = "deliverable_status_check" ∷ "dependency_validation" ∷ [];
    }
    ∷ []

-- The summary counts the passed ones among all.
pub record VerificationLayer : Type 0 where
  pub name : String
  pub passed : Bool
  pub validator_results : List ValidatorResult
  pub passed_count : ℕ

-- `for source in evidence_sources: for r in validator_results: if r.validator_name == source`
unfoldable pub matching : List String → List ValidatorResult → List ValidatorResult
unfolding select
matching [] results = []
matching (source ∷ sources) results =
    select (λ (r : ValidatorResult). r.validator_name == source) results ++ matching sources results

unfoldable pub layer_of : List ValidatorResult → CompletionLayerDef → VerificationLayer
unfolding matching all
layer_of results d =
    let found = matching d.evidence_sources results in
    record {
      name = d.name;
      passed = if is_nil found then false else all (λ (r : ValidatorResult). r.passed) found;
      validator_results = found;
      passed_count = length (select (λ (r : ValidatorResult). r.passed) found);
    }

-- `m.layers` is the manifest's own list, where it gives one.
unfoldable pub generate_completion_report :
    WorkflowManifest → List ValidatorResult → List VerificationLayer
unfolding layer_of
generate_completion_report m results =
    map (layer_of results) (elim m.layers [ none ↦ default_verification_layers | some ls ↦ ls ])

-- A persisted row of the table validator_results.
pub record ResultRow : Type 0 where
  pub workflow_id : String
  pub stage_execution_id : String
  pub validator_name : String
  pub passed : Bool

pub data LayerStatus : Type 0 where
  pass fail unverified : LayerStatus

unfoldable pub layer_status : List ResultRow → LayerStatus
unfolding all
layer_status [] = unverified
layer_status (r ∷ rows) = if all (λ (x : ResultRow). x.passed) (r ∷ rows) then pass else fail

abbrev pub functional_validators : List String
functional_validators = "lint_check" ∷ "test_suite" ∷ "regression_tests" ∷ "integration_tests" ∷ []

abbrev pub architectural_validators : List String
architectural_validators = "code_review" ∷ "architecture_conformance" ∷ []

abbrev pub contract_validators : List String
contract_validators = "deliverable_status_check" ∷ "dependency_validation" ∷ []

-- The query of _load_validator_rows.
unfoldable pub load_validator_rows : List ResultRow → String → String → List String → List ResultRow
unfolding select elem
load_validator_rows table workflow_id stage_execution_id names =
    select
      (λ r.
        r.workflow_id == workflow_id
        && (r.stage_execution_id == stage_execution_id && elem r.validator_name names))
      table

abbrev pub is_pass : LayerStatus → Bool
is_pass pass = true
is_pass _ = false

pub record TaskgroupReport : Type 0 where
  pub functional : LayerStatus
  pub architectural : LayerStatus
  pub contract : LayerStatus
  pub all_layers_pass : Bool

-- Each layer's evidence is the rows that its status is computed from.
unfoldable pub build_taskgroup_report : List ResultRow → String → String → TaskgroupReport
unfolding layer_status load_validator_rows
build_taskgroup_report table workflow_id stage_execution_id =
    let status = λ (names : List String).
      layer_status (load_validator_rows table workflow_id stage_execution_id names) in
    let functional = status functional_validators in
    let architectural = status architectural_validators in
    let contract = status contract_validators in
    record {
      functional = functional;
      architectural = architectural;
      contract = contract;
      all_layers_pass = is_pass functional && (is_pass architectural && is_pass contract);
    }

-- `none` is a task group with no report, and `some b` one whose report says `all_layers_pass = b`.
unfoldable pub build_stage_report : List (Option Bool) → Bool
build_stage_report [] = true
build_stage_report (none ∷ groups) = false
build_stage_report (some b ∷ groups) = b && build_stage_report groups
