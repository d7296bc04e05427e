-- ===== src/Workers/State.antt =====
-- What the loops of workers/tasks.py act on: the world, and the tables of the workflow's execution.
-- The report columns are not kept.
use auto_builder.Base.{ℕ, String, Option, Bool, List, [], ◌∷◌, ◌++◌, if◌then◌else◌, nat_eq}
use auto_builder.Model.{World}
use auto_builder.Model.Values.{State}
use auto_builder.Workflows.Stages.{StageStatus}
use auto_builder.Workflows.Manifest.{
  ValidatorDefinition, ValidatorSchedule, StageDef, WorkflowManifest,
}
use auto_builder.Workflows.Validators.{evaluate, schedule_tag}
use auto_builder.Workflows.Reports.{ResultRow}

pub record StageExecution : Type 0 where
  pub id : String
  pub project_id : String
  pub stage_name : String
  pub stage_index : ℕ
  pub status : StageStatus
  pub started_at : Option ℕ
  pub completed_at : Option ℕ

-- An edit operation; the description is empty where none is given.
pub record Edit : Type 0 where
  pub operation : String
  pub description : String

-- Of the checkpoint's data, only that of an edit is kept.
pub record TaskGroupExecution : Type 0 where
  pub id : String
  pub stage_execution_id : String
  pub project_id : String
  pub taskgroup_number : ℕ
  pub status : StageStatus
  pub completed_at : Option ℕ
  pub edit : Option Edit

pub record Engine : Type 0 where
  pub world : World
  pub stage_executions : List StageExecution
  pub taskgroups : List TaskGroupExecution
  pub results : List ResultRow

-- A run's arguments. `outside` is what other processes (agents and their tools, the gateway, other
-- jobs) do to the tables up to the given look at them; `fresh` names new rows, and `describe_cost`
-- is the text with the cost and the ceiling, as `cost_title` and `threshold_reason` are texts of the
-- escalation and of the suspension. The threshold is the configured one, or the default.
pub record Run : Type 0 where
  pub project_id : String
  pub workflow_id : String
  pub manifest : WorkflowManifest
  pub cost_ceiling : ℕ
  pub has_redis : Bool
  pub retry_limit : ℕ
  pub threshold : ℕ
  pub now : ℕ
  pub outside : ℕ → Engine → Engine
  pub fresh : ℕ → String
  pub cost_title : String → String
  pub describe_cost : ℕ → ℕ → String
  pub threshold_reason : ℕ → String

unfoldable pub stages_validators : List StageDef → List ValidatorDefinition
stages_validators [] = []
stages_validators (s ∷ stages) = s.validators ++ stages_validators stages

-- Those of the manifest, and of all its stages.
abbrev pub all_validators : WorkflowManifest → List ValidatorDefinition
all_validators m = m.validators ++ stages_validators m.stages

-- A row for each validator of the schedule, under the definition's name.
unfoldable pub scheduled_rows :
    String → String → List ValidatorDefinition → ValidatorSchedule → State → List ResultRow
scheduled_rows wid sid [] schedule state = []
scheduled_rows wid sid (v ∷ vs) schedule state =
    let rest = scheduled_rows wid sid vs schedule state in
    if nat_eq (schedule_tag v.schedule) (schedule_tag schedule)
    then record {
      workflow_id = wid;
      stage_execution_id = sid;
      validator_name = v.name;
      passed = (evaluate v state).passed;
    }
      ∷ rest
    else rest

-- _run_scheduled_validators: what it writes. What it returns is `evaluate_batch`.
abbrev pub run_scheduled_validators : Run → String → ValidatorSchedule → State → Engine → Engine
run_scheduled_validators r sid schedule state e = record e {
  results =
      e.results ++ scheduled_rows r.workflow_id sid (all_validators r.manifest) schedule state;
}
