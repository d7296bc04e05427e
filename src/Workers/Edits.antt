-- ===== src/Workers/Edits.antt =====
-- create_edit_taskgroup and create_batch_edit_taskgroups of workers/tasks.py. Rows stand in the order of
-- their creation. `workflows` holds the types of the workflow rows; a stage execution's key of its
-- workflow is not kept, but that the database refuses one of a row that is not there.
pub mod Numbers
use auto_builder.Base.{
  ℕ, zero, suc, ◌+◌, String, Option, none, some, Bool, true, false, List, [], ◌∷◌, ◌++◌, ◌==◌, elem,
  if◌then◌else◌,
}
use auto_builder.Model.{find_project}
use auto_builder.Model.Rows.{Project}
use auto_builder.Workflows.Stages.{StageStatus, pending}
use auto_builder.Workers.State.{Engine, StageExecution, TaskGroupExecution, Edit}

-- The id of the new row; ValueError; or the database's IntegrityError.
pub data EditReply : Type 0 where
  created : (taskgroup_id : String) → EditReply
  project_not_found integrity_error : EditReply

-- `order_by(created_at.desc())`, `first()`.
unfoldable pub latest_stage : String → List StageExecution → Option StageExecution
latest_stage pid [] = none
latest_stage pid (x ∷ xs) = elim (latest_stage pid xs) [
  | some later ↦ some later
  | none ↦ if x.project_id == pid then some x else none
]

-- select(func.count()) over the project's task groups
unfoldable pub count_taskgroups : String → List TaskGroupExecution → ℕ
count_taskgroups pid [] = 0
count_taskgroups pid (t ∷ ts) =
    let n = count_taskgroups pid ts in if t.project_id == pid then suc n else n

abbrev pub edit_stage : String → String → StageExecution
edit_stage pid sid = record {
  id = sid;
  project_id = pid;
  stage_name = "build";
  stage_index = 0;
  status = pending;
  started_at = none;
  completed_at = none;
}

abbrev pub new_taskgroup : String → String → String → Edit → Engine → TaskGroupExecution
new_taskgroup pid sid tid edit e = record {
  id = tid;
  stage_execution_id = sid;
  project_id = pid;
  taskgroup_number = count_taskgroups pid e.taskgroups + 1;
  status = pending;
  completed_at = none;
  edit = some edit;
}

abbrev pub add_taskgroup : String → String → String → Edit → Engine → Engine × EditReply
add_taskgroup pid sid tid edit e =
    (record e { taskgroups = e.taskgroups ++ new_taskgroup pid sid tid edit e ∷ [] }, created tid)

-- Without a stage execution, one is added to the project's newest workflow.
unfoldable pub attach :
    List String
    → Project
    → String
    → String
    → Edit
    → Option StageExecution
    → Engine
    → Engine × EditReply
unfolding count_taskgroups elem
attach workflows p sid tid edit (some x) e = add_taskgroup p.id x.id tid edit e
attach workflows p sid tid edit none e =
    if elem p.workflow_type workflows
    then add_taskgroup p.id sid tid edit
        (record e { stage_executions = e.stage_executions ++ edit_stage p.id sid ∷ [] })
    else (e, integrity_error)

unfoldable pub edit_found :
    List String → String → String → Edit → Option Project → Engine → Engine × EditReply
unfolding attach latest_stage
edit_found workflows sid tid edit none e = (e, project_not_found)
edit_found workflows sid tid edit (some p) e =
    attach workflows p sid tid edit (latest_stage p.id e.stage_executions) e

-- `sid` and `tid` are the ids of the rows that may be added.
unfoldable pub create_edit_taskgroup :
    List String → String → String → String → Edit → Engine → Engine × EditReply
unfolding edit_found find_project
create_edit_taskgroup workflows pid sid tid edit e =
    edit_found workflows sid tid edit (find_project pid e.world) e

-- The ids of the new rows, or the exception that ends the batch; what was added before it stays.
pub data BatchReply : Type 0 where
  all_created : (taskgroup_ids : List String) → BatchReply
  raised : EditReply → BatchReply

abbrev pub also : String → BatchReply → BatchReply
also tid (all_created ids) = all_created (tid ∷ ids)
also tid (raised r) = raised r

abbrev pub then_rest : Engine × EditReply → (Engine → Engine × BatchReply) → Engine × BatchReply
then_rest (e, created tid) rest = let (e', reply) = rest e in (e', also tid reply)
then_rest (e, r) rest = (e, raised r)

-- `fresh n` names the rows of the n-th call.
unfoldable pub create_batch_edit_taskgroups :
    List String → String → (ℕ → String × String) → ℕ → List Edit → Engine → Engine × BatchReply
unfolding create_edit_taskgroup
create_batch_edit_taskgroups workflows pid fresh n [] e = (e, all_created [])
create_batch_edit_taskgroups workflows pid fresh n (edit ∷ edits) e =
    let (sid, tid) = fresh n in
    then_rest (create_edit_taskgroup workflows pid sid tid edit e)
      (create_batch_edit_taskgroups workflows pid fresh (suc n) edits)
