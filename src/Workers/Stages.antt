-- ===== src/Workers/Stages.antt =====
-- _execute_stage_loop of workers/tasks.py: the stages of a manifest in order, each with one task
-- group. A project has at most one stage execution for each stage name. The columns with the
-- current stage and task group, the checkpoints and the reports are not kept.
pub mod Gate
pub mod Approval
pub mod Executions
pub mod Closed
pub mod Finish
use auto_builder.Base.{
  ℕ, zero, suc, ◌+◌, String, Option, none, some, Bool, true, false, List, [], ◌∷◌, ◌++◌, find,
  select, length, is_nil, ◌==◌, ◌&&◌, nat_eq, if◌then◌else◌,
}
use auto_builder.Model.{
  DeliverableStatus, ProjectStatus, World, find_project, update_project, publish, stage_started,
  stage_completed, project_status_changed,
}
use auto_builder.Model.Rows.{Project, Deliverable, DirectorQueueItem, DirectorQueueStatus}
use auto_builder.Model.Values.{State, Fields, text, int, dict, end, field}
use auto_builder.Workflows.Stages.{StageStatus, active, completed}
use auto_builder.Workflows.Manifest.{StageDef, per_taskgroup, per_stage}
use auto_builder.Workflows.Validators.{evaluate_batch}
use auto_builder.Workflows.Gates.{GateFailure, verify_taskgroup_completion}
use auto_builder.Workers.State.{
  StageExecution, TaskGroupExecution, Engine, Run, all_validators, run_scheduled_validators,
}
use auto_builder.Workers.Batch.{Loop, Stop, drained, in_world, project_rows, execute_batch_loop}

pub record Progress : Type 0 where
  pub engine : Engine
  pub tick : ℕ
  pub stages_completed : ℕ
  pub total_completed : ℕ
  pub total_failed : ℕ
  pub taskgroup_counter : ℕ

-- The text of a status word.
abbrev pub word : DeliverableStatus → String
word DeliverableStatus.pending = "PENDING"
word DeliverableStatus.in_progress = "IN_PROGRESS"
word DeliverableStatus.completed = "COMPLETED"
word DeliverableStatus.failed = "FAILED"
word DeliverableStatus.blocked = "BLOCKED"
word DeliverableStatus.planned = "PLANNED"
word DeliverableStatus.skipped = "SKIPPED"

-- {str(d.id): d.status for d in delivs}
unfoldable pub status_fields : List Deliverable → Fields
status_fields [] = end
status_fields (d ∷ ds) = field d.id (text (word d.status)) (status_fields ds)

abbrev pub is_pending_from : String → DirectorQueueItem → Bool
is_pending_from pid i = elim i.status [
  | DirectorQueueStatus.pending ↦ elim i.source_project_id [ none ↦ false | some p ↦ p == pid ]
  | _ ↦ false
]

abbrev pub is_done : StageStatus → Bool
is_done completed = true
is_done _ = false

abbrev pub is_execution_of : String → String → StageExecution → Bool
is_execution_of pid name x = x.project_id == pid && x.stage_name == name

-- A stage execution that is taken up again.
abbrev pub resumed : ℕ → StageExecution → StageExecution
resumed now x = record x {
  status = active;
  started_at = elim x.started_at [ none ↦ some now | some t ↦ some t ];
}

-- The first row that passes the test, written back.
unfoldable pub write_first :
    (StageExecution → Bool)
    → (StageExecution → StageExecution)
    → List StageExecution
    → List StageExecution
write_first p f [] = []
write_first p f (x ∷ xs) = let rest = write_first p f xs in if p x then f x ∷ xs else x ∷ rest

unfoldable pub complete_stage : ℕ → String → List StageExecution → List StageExecution
complete_stage now sid [] = []
complete_stage now sid (x ∷ xs) =
    (if x.id == sid then record x { status = completed; completed_at = some now } else x)
    ∷ complete_stage now sid xs

unfoldable pub complete_taskgroup : ℕ → String → List TaskGroupExecution → List TaskGroupExecution
complete_taskgroup now tid [] = []
complete_taskgroup now tid (x ∷ xs) =
    (if x.id == tid then record x { status = completed; completed_at = some now } else x)
    ∷ complete_taskgroup now tid xs

module _ (r : Run) where
  unfoldable pub pending_escalations : Engine → ℕ
  unfolding select
  pending_escalations e = length (select (is_pending_from r.project_id) e.world.director_queue)

  -- `tg_gate_state`
  unfoldable pub gate_state : String → Engine → State
  unfolding status_fields pending_escalations project_rows
  gate_state name e = field "deliverable_statuses" (dict (status_fields (project_rows r e))) (
      field "pm:current_stage" (text name)
        (field "pm:pending_escalations" (int (pending_escalations e)) end))

  -- What the task group's gate objects to.
  unfoldable pub taskgroup_gate : String → Engine → List GateFailure
  unfolding gate_state verify_taskgroup_completion evaluate_batch
  taskgroup_gate name e =
      verify_taskgroup_completion (gate_state name e) r.manifest.stages
        (evaluate_batch (all_validators r.manifest) per_taskgroup (gate_state name e))

  -- `stage_state`
  unfoldable pub stage_state : String → Engine → State
  unfolding status_fields project_rows
  stage_state name e =
      field "pm:current_stage" (text name)
        (field "deliverable_statuses" (dict (status_fields (project_rows r e))) end)

  abbrev pub new_execution : String → ℕ → String → StageExecution
  new_execution sid index name = record {
    id = sid;
    project_id = r.project_id;
    stage_name = name;
    stage_index = index;
    status = active;
    started_at = some r.now;
    completed_at = none;
  }

  -- The row of the stage is taken up, or added; its id comes with it.
  abbrev pub open_execution : String → ℕ → String → Option StageExecution → Engine → Engine × String
  open_execution sid index name none e =
      (record e { stage_executions = e.stage_executions ++ new_execution sid index name ∷ [] }, sid)
  open_execution sid index name (some x) e = (
    record e {
      stage_executions =
          write_first (is_execution_of r.project_id name) (resumed r.now) e.stage_executions;
    },
    x.id,
  )

  abbrev pub open_taskgroup : String → ℕ → String → Engine → Engine
  open_taskgroup tid number sid e = record e {
    taskgroups =
        e.taskgroups
        ++ record {
          id = tid;
          stage_execution_id = sid;
          project_id = r.project_id;
          taskgroup_number = number;
          status = active;
          completed_at = none;
          edit = none;
        }
          ∷ [];
  }

  -- The closed task group, the stage's validators, and the stage's end. What the stage's gate says
  -- is logged only.
  unfoldable pub close_stage : String → String → String → Engine → Engine
  unfolding stage_state complete_stage complete_taskgroup
  close_stage name sid tid e =
      let closed = record e { taskgroups = complete_taskgroup r.now tid e.taskgroups } in
      let validated = run_scheduled_validators r sid per_stage (stage_state name closed) closed in
      in_world (publish (stage_completed r.project_id name)) (record validated {
        stage_executions = complete_stage r.now sid validated.stage_executions;
      })

  abbrev pub totals : Loop → Progress → Progress
  totals l p = record p {
    engine = r.outside l.tick l.engine;
    tick = l.tick + 1;
    total_completed = p.total_completed + l.total_completed;
    total_failed = p.total_failed + l.total_failed;
  }

  -- Whether the task group is closed; a stage that is not closed ends the loop.
  abbrev pub pass_gate : StageDef → String → String → Bool → Progress → Progress × Bool
  pass_gate s sid tid false p = (p, false)
  pass_gate s sid tid true p = (
    record p {
      engine = close_stage s.name sid tid p.engine;
      stages_completed = p.stages_completed + 1;
    },
    true,
  )

  abbrev pub at_gate : StageDef → String → String → Progress → Progress × Bool
  at_gate s sid tid p = pass_gate s sid tid (is_nil (taskgroup_gate s.name p.engine)) (record p {
    engine = run_scheduled_validators r sid per_taskgroup (gate_state s.name p.engine) p.engine;
  })

  abbrev pub after_batches : StageDef → String → String → Stop → Progress → Progress × Bool
  after_batches s sid tid drained p = at_gate s sid tid p
  after_batches s sid tid _ p = (p, false)

  unfoldable pub run_taskgroup : ℕ → StageDef → String → Progress → Progress × Bool
  unfolding execute_batch_loop taskgroup_gate close_stage
  run_taskgroup fuel s sid p =
      let tid = r.fresh p.tick in
      let opened = open_taskgroup tid (p.taskgroup_counter + 1) sid p.engine in
      let (l, stop) = execute_batch_loop r sid fuel (p.tick + 1) opened in
      after_batches s sid tid stop
        (totals l (record p { taskgroup_counter = p.taskgroup_counter + 1 }))

  abbrev pub start_stage : ℕ → ℕ → StageDef → Option StageExecution → Progress → Progress × Bool
  start_stage fuel index s found p =
      let (opened, sid) = open_execution (r.fresh p.tick) index s.name found p.engine in
      run_taskgroup fuel s sid
        (record p { engine = in_world (publish (stage_started s.name index)) opened })

  -- A stage that is completed already counts.
  abbrev pub enter_stage : ℕ → ℕ → StageDef → Option StageExecution → Progress → Progress × Bool
  enter_stage fuel index s none p = start_stage fuel index s none p
  enter_stage fuel index s (some x) p =
      if is_done x.status
      then (record p { stages_completed = p.stages_completed + 1 }, true)
      else start_stage fuel index s (some x) p

  unfoldable pub run_stage : ℕ → ℕ → StageDef → Progress → Progress × Bool
  unfolding run_taskgroup find write_first
  run_stage fuel index s p =
      let seen = record p { engine = r.outside p.tick p.engine; tick = p.tick + 1 } in
      enter_stage fuel index s
        (find (is_execution_of r.project_id s.name) seen.engine.stage_executions) seen

  abbrev pub next_stage : Progress × Bool → (Progress → Progress) → Progress
  next_stage (p, true) rest = rest p
  next_stage (p, false) rest = p

  unfoldable pub run_stages : ℕ → ℕ → List StageDef → Progress → Progress
  unfolding run_stage
  run_stages fuel index [] p = p
  run_stages fuel index (s ∷ stages) p =
      next_stage (run_stage fuel index s p) (run_stages fuel (suc index) stages)

  -- The end of the project, whatever its status was; without a row the old status is ACTIVE.
  abbrev pub completion_event : Option Project → World → World
  completion_event o = publish (
      project_status_changed r.project_id
        (elim o [ none ↦ ProjectStatus.active | some p ↦ p.status ]) ProjectStatus.completed none
        none none)

  unfoldable pub complete_project : World → World
  unfolding find_project
  complete_project w = completion_event (find_project r.project_id w) (
      update_project r.project_id
        (λ p. record p { status = ProjectStatus.completed; completed_at = some r.now }) w)

  abbrev pub begin : Engine → Progress
  begin e = record {
    engine = e;
    tick = 0;
    stages_completed = 0;
    total_completed = 0;
    total_failed = 0;
    taskgroup_counter = 0;
  }

  abbrev pub finished : List StageDef → Progress → Progress × Bool
  finished stages p =
      if nat_eq p.stages_completed (length stages)
      then (record p { engine = in_world complete_project p.engine }, true)
      else (p, false)

  -- The state at the end, and `project_completed`. A manifest with no stages completes nothing.
  abbrev pub stage_loop : ℕ → List StageDef → Engine → Progress × Bool
  stage_loop fuel [] e = (begin e, true)
  stage_loop fuel (s ∷ stages) e = finished (s ∷ stages) (run_stages fuel 0 (s ∷ stages) (begin e))

  unfoldable pub execute_stage_loop : ℕ → Engine → Progress × Bool
  unfolding run_stages complete_project
  execute_stage_loop fuel e = stage_loop fuel r.manifest.stages e
