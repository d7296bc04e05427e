-- ===== src/Samples/Runs.antt =====
-- Sample runs of the worker's loops: the project `p` has one stage, and the deliverables `a` and `b`,
-- which waits on it. Others complete what is in progress.
use auto_builder.Base.{
  ℕ, suc, ◌≤◌, String, none, some, true, List, [], ◌∷◌, ◌≡◌, ◌≢◌, ◌↔◌, refl, inl, inr, map, select,
  All, arith, Bool-cases, if◌then◌else◌, elem,
}
use auto_builder.Model.{
  DeliverableStatus, planned, in_progress, completed, failed, ProjectStatus, active,
  is_terminal_deliverable, same_deliverable_status, find_project,
}
use auto_builder.Model.Rows.{Deliverable}
use auto_builder.Deliverables.Update.{is_of_project}
use auto_builder.Lifecycle.Audit.{can_become, IsAudited}
use auto_builder.Workflows.Manifest.{StageDef, deterministic, per_taskgroup, director, all_verified}
use auto_builder.Workflows.Gates.{find_stage, counts_in_taskgroup}
use auto_builder.Workflows.Gates.Stage.{HasPassed}
use auto_builder.Workflows.Validators.{evaluate, deliverable_status_check}
use auto_builder.Deliverables.Ready.{sort}
use auto_builder.Workers.State.{Engine, Run, stages_validators}
use auto_builder.Workers.Batch.{
  out_of_fuel, drained, project_rows, ready_rows, batch_loop, execute_batch_loop, start,
}
use auto_builder.Workers.Batch.Attempts.{Tame, AllTame, attempts, all_attempts}
use auto_builder.Workers.Batch.Ends.{execute_batch_loop-ends}
use auto_builder.Workers.Batch.Unproven.{IsUnproven, execute_batch_loop-IsUnproven}
use auto_builder.Workers.Stages.{
  taskgroup_gate, pending_escalations, complete_project, execute_stage_loop,
}
use auto_builder.Workers.Stages.Gate.{results_at, taskgroup_gate_iff, taskgroup_gate-required}
use auto_builder.Workers.Stages.Executions.{IsCompleted}
use auto_builder.Workers.Stages.Closed.{execute_stage_loop-IsCompleted}
use auto_builder.Workers.Stages.Finish.{complete_project-IsAudited}

abbrev row : String → List String → Deliverable
row id depends_on = record {
  id = id;
  project_id = some "p";
  name = id;
  status = planned;
  depends_on = depends_on;
  retry_count = 0;
  execution_order = none;
  updated_at = 0;
}

-- What the agents do to a row.
abbrev work : Deliverable → Deliverable
work d = if same_deliverable_status d.status in_progress then record d { status = completed } else d

abbrev agents : ℕ → Engine → Engine
agents tick e = record e { world = record e.world { deliverables = map work e.world.deliverables } }

work-Tame : (d : Deliverable) → Tame d (work d)
work-Tame d = elim (Bool-cases (same_deliverable_status d.status in_progress)) [
  | inl e ↦ rw e (record {
    same_id = refl;
    counts = omega arith;
    waits = λ h. cc;
    fails = λ h. absurd (apart d.status e h);
  })
  | inr e ↦
      rw e (record { same_id = refl; counts = omega arith; waits = λ h. h; fails = λ h. inl h })
]
  where
    apart :
        (s : DeliverableStatus)
        → same_deliverable_status s in_progress ≡ true
        → same_deliverable_status s failed ≡ true
        → ⊥
    apart s h k = ground arith

agents-AllTame :
    (pid : String) (ds : List Deliverable)
    → AllTame (select (is_of_project pid) ds) (select (is_of_project pid) (map work ds))
unfolding select
agents-AllTame pid [] = tt
agents-AllTame pid (d ∷ ds) =
    let rest = agents-AllTame pid ds in
    let same : is_of_project pid (work d) ≡ is_of_project pid d = ground arith in
    elim (Bool-cases (is_of_project pid d)) [
      | inl e ↦ rw (same, e) (work-Tame d, rest)
      | inr e ↦ rw (same, e) rest
    ]

abbrev build : StageDef
build = record {
  name = "build";
  validators =
      record {
        name = "deliverable_status_check";
        type = deterministic;
        schedule = per_taskgroup;
        required = true;
      }
      ∷ [];
  completion_criteria = all_verified;
  approval = director;
}

abbrev pub run : Run
run = record {
  project_id = "p";
  workflow_id = "w";
  manifest = record {
    name = "w";
    description = "a workflow";
    stages = build ∷ [];
    validators = [];
    layers = none;
    triggers = [];
  };
  cost_ceiling = 100;
  has_redis = true;
  retry_limit = 2;
  threshold = 3;
  now = 7;
  outside = agents;
  fresh = λ tick. "new";
  cost_title = λ pid. "Cost ceiling exceeded";
  describe_cost = λ cost ceiling. "cost";
  threshold_reason = λ threshold. "failures";
}

abbrev pub engine : Engine
engine = record {
  world = record {
    projects =
        record {
          id = "p";
          workflow_type = "w";
          status = active;
          accumulated_cost = 0;
          started_at = none;
          completed_at = none;
          error_message = none;
          updated_at = 0;
        }
        ∷ [];
    deliverables = row "a" [] ∷ row "b" ("a" ∷ []) ∷ [];
    director_flag = none;
    pause_flags = [];
    jobs = [];
    events = [];
    director_queue = [];
  };
  stage_executions = [];
  taskgroups = [];
  results = [];
}

execute_batch_loop-ends_example :
    let (l, stop) = execute_batch_loop run "s" 7 0 engine in
    (stop ≢ out_of_fuel)
    × (stop ≡ drained
        → ready_rows run (batch_loop run "s" 7 (start run "s" 0 engine)).0.engine ≡ [])
    × (l.batch_count ≤ suc (all_attempts 2 (project_rows run engine)))
unfolding project_rows select all_attempts attempts
execute_batch_loop-ends_example =
    execute_batch_loop-ends run "s" (λ tick e. agents-AllTame "p" e.world.deliverables) 7 0 engine
      (omega arith)

execute_batch_loop-IsUnproven_example :
    IsUnproven (execute_batch_loop run "s" 7 0 engine).0.engine.results
execute_batch_loop-IsUnproven_example =
    execute_batch_loop-IsUnproven run "s" (λ tick e h. h) 7 0 engine tt

taskgroup_gate_iff_example : (taskgroup_gate run "build" engine ≡ []) ↔ (
    All (λ d. is_terminal_deliverable d.status ≡ true) (project_rows run engine)
    × (pending_escalations run engine ≡ 0)
    × All
        (λ v. counts_in_taskgroup v ≡ true → HasPassed (results_at run "build" engine) v.name)
        build.validators)
unfolding find_stage
taskgroup_gate_iff_example = taskgroup_gate_iff run build engine refl

-- Nothing is planned in an empty project.
abbrev idle : Engine
idle = record engine { world = record engine.world { deliverables = [] } }

taskgroup_gate-required_example :
    All (λ v. counts_in_taskgroup v ≡ true → v.name ≡ "deliverable_status_check") build.validators
unfolding find_stage taskgroup_gate stages_validators evaluate deliverable_status_check
taskgroup_gate-required_example = taskgroup_gate-required run build idle refl refl

execute_stage_loop-IsCompleted_example :
    All
      (λ s. IsCompleted "p" s.name (execute_stage_loop run 7 engine).0.engine.stage_executions)
      run.manifest.stages
unfolding execute_stage_loop sort elem stages_validators evaluate deliverable_status_check
execute_stage_loop-IsCompleted_example =
    execute_stage_loop-IsCompleted run (λ tick e. refl) 7 engine refl

complete_project-IsAudited_example :
    IsAudited engine.world (complete_project run engine.world)
    ↔ (can_become active ProjectStatus.completed ≡ true)
unfolding find_project
complete_project-IsAudited_example = complete_project-IsAudited run engine.world _ refl
