-- ===== src/Samples/Flows.antt =====
-- Sample runs of a workflow's stages, validators, gates and reports.
use auto_builder.Base.{
  ℕ, String, Option, none, some, Bool, true, List, [], ◌∷◌, ◌≡◌, refl, ◌↔◌, nat_eq, nat_eq,
}
use auto_builder.Model.Values.{Value, text, dict, end, field, State, get}
use auto_builder.Workflows.Manifest.{
  deterministic, llm, per_deliverable, per_stage, StageApproval, ceo, all_verified,
  ValidatorDefinition, StageDef, WorkflowManifest, ValidatorResult,
}
use auto_builder.Workflows.Stages.{
  StageState, StageStatus, active, stage_names, initialize_stage_state,
}
use auto_builder.Workflows.Stages.Progress.{IsOnTrack, run_stages, run_stages-IsOnTrack}
use auto_builder.Workflows.Gates.{
  find_stage, escalation_count, verify_stage_completion, verify_taskgroup_completion,
}
use auto_builder.Workflows.Gates.Stage.{StageSpec, AllSettled, verify_stage_completion_iff}
use auto_builder.Workflows.Gates.Taskgroup.{ValidatorsSpec, verify_taskgroup_completion_iff}
use auto_builder.Workflows.Reports.{
  ResultRow, build_taskgroup_report, functional_validators, architectural_validators,
  contract_validators,
}
use auto_builder.Workflows.Reports.Layers.{IsProven, build_taskgroup_report_iff}

abbrev lint : ValidatorDefinition
lint = record {
  name = "lint_check";
  type = deterministic;
  schedule = per_deliverable;
  required = true;
}

abbrev review : ValidatorDefinition
review = record { name = "style"; type = llm; schedule = per_stage; required = true }

abbrev shape : StageDef
shape = record {
  name = "shape";
  validators = lint ∷ [];
  completion_criteria = all_verified;
  approval = StageApproval.auto;
}

abbrev build : StageDef
build = record {
  name = "build";
  validators = review ∷ [];
  completion_criteria = all_verified;
  approval = ceo;
}

abbrev stages : List StageDef
stages = shape ∷ build ∷ []

abbrev manifest : WorkflowManifest
manifest = record {
  name = "auto-code";
  description = "writes code";
  stages = stages;
  validators = [];
  layers = none;
  triggers = [];
}

abbrev begun : StageState
begun = record {
  current_stage = "shape";
  stage_index = 0;
  stage_status = StageStatus.pending;
  stages_completed = [];
}

abbrev moved_on : StageState
moved_on = record {
  current_stage = "build";
  stage_index = 1;
  stage_status = active;
  stages_completed = "shape" ∷ [];
}

abbrev targets : List String
targets = "no stage" ∷ "build" ∷ "shape" ∷ []

run_stages-IsOnTrack_example :
    IsOnTrack (stage_names stages) (run_stages stages (initialize_stage_state stages) targets)
run_stages-IsOnTrack_example = run_stages-IsOnTrack shape (build ∷ []) targets

abbrev is_blank : ℕ → Bool
is_blank c = nat_eq c 32

abbrev parse_none : Value → Option StageDef
parse_none v = some shape

abbrev both : List ValidatorDefinition
both = lint ∷ review ∷ []

abbrev state : State
state =
    field "pm:current_stage" (text "shape")
      (field "deliverable_statuses" (dict (field "a" (text "COMPLETED") end)) end)

abbrev results : List ValidatorResult
results = record { validator_name = "lint_check"; passed = true; message = "" } ∷ []

verify_stage_completion_iff_example : (verify_stage_completion state stages results ≡ []) ↔ (
    (s : StageDef) × (find_stage stages (get state "pm:current_stage") ≡ some s)
    × StageSpec state results s)
verify_stage_completion_iff_example = verify_stage_completion_iff state shape (build ∷ []) results

-- The gate does pass here.
stage_gate_passes : verify_stage_completion state stages results ≡ []
unfolding verify_stage_completion
stage_gate_passes = refl

verify_taskgroup_completion_iff_example :
    (verify_taskgroup_completion state stages results ≡ []) ↔ (
      AllSettled state
      × (escalation_count (get state "pm:pending_escalations") ≡ 0)
      × ValidatorsSpec results (find_stage stages (get state "pm:current_stage")))
verify_taskgroup_completion_iff_example =
    verify_taskgroup_completion_iff state shape (build ∷ []) results

abbrev table : List ResultRow
table =
    record {
      workflow_id = "w";
      stage_execution_id = "s";
      validator_name = "lint_check";
      passed = true;
    }
    ∷ []

build_taskgroup_report_iff_example :
    ((build_taskgroup_report table "w" "s").all_layers_pass ≡ true) ↔ (
      IsProven table "w" "s" functional_validators
      × IsProven table "w" "s" architectural_validators
      × IsProven table "w" "s" contract_validators)
build_taskgroup_report_iff_example = build_taskgroup_report_iff table "w" "s"
