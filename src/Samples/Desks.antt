-- ===== src/Samples/Desks.antt =====
-- Sample runs of the worker's jobs around its loops: the scheduler behind a batch loop, a session, the
-- Director's queue, and a batch of edits.
use auto_builder.Base.{
  ◌≤◌, String, none, some, true, false, List, [], ◌∷◌, ◌++◌, ◌≡◌, ◌↔◌, refl, length, distinct, elem,
  IsDistinct, IsIn, map,
}
use auto_builder.Model.{shaping, find_project}
use auto_builder.Model.Rows.{
  DirectorQueueItem, EscalationRequestType, escalation, EscalationPriority, DirectorQueueStatus,
}
use auto_builder.Workflows.Stages.{StageStatus}
use auto_builder.Workers.State.{Engine, TaskGroupExecution, Edit}
use auto_builder.Workers.Batch.{execute_batch_loop}
use auto_builder.Workers.Batch.Schedule.{IsSettled, execute_batch_loop-Moves}
use auto_builder.Workers.Session.{Office, Attempt, finished, run_work_session}
use auto_builder.Workers.Stages.{execute_stage_loop}
use auto_builder.Workers.Session.Ends.{HasEnded, run_work_session-HasEnded}
use auto_builder.Workers.Cron.{
  Desk, Clock, is_pending, is_counted, projects_of, process_director_queue,
}
use auto_builder.Workers.Cron.Turns.{HasItem, process_director_queue-turns}
use auto_builder.Workers.Cron.Alerts.{HasAlert, process_director_queue-alerts}
use auto_builder.Workers.Edits.{
  all_created, create_batch_edit_taskgroups, latest_stage, count_taskgroups,
}
use auto_builder.Workers.Edits.Numbers.{IsNumbered, create_batch_edit_taskgroups-IsNumbered}
use auto_builder.Samples.Runs.{run, engine}

execute_batch_loop-Moves_example :
    IsSettled run "s"
      (record { rows = engine.world.deliverables; open_batch = []; is_drained = false })
      (execute_batch_loop run "s" 7 0 engine)
execute_batch_loop-Moves_example = execute_batch_loop-Moves run "s" 7 0 engine

-- A project that is being shaped.
abbrev shaped : Engine
shaped = record engine {
  world = record engine.world {
    projects =
        record {
          id = "p";
          workflow_type = "w";
          status = shaping;
          accumulated_cost = 0;
          started_at = none;
          completed_at = none;
          error_message = none;
          updated_at = 0;
        }
        ∷ [];
  };
}

abbrev attempt : Attempt
attempt = record {
  project_id = "p";
  project_uuid = some "p";
  run = run;
  setup = λ o. (o, none);
  agents = λ r o. (o, finished);
  loop = λ r o. (record o { engine = (execute_stage_loop r 7 o.engine).0.engine }, none);
  many_rows = "Multiple rows were found";
  scale = λ v. 5;
  fresh_item = "c";
  failure_title = λ pid. "Work session failed";
}

abbrev office : Office
office = record { engine = shaped; configs = []; ceo = []; sessions = []; lifecycle = [] }

run_work_session-HasEnded_example : HasEnded attempt office (run_work_session attempt office)
run_work_session-HasEnded_example = run_work_session-HasEnded attempt office

abbrev question : String → String → DirectorQueueItem
question id pid = record {
  id = id;
  type = escalation;
  priority = EscalationPriority.normal;
  status = DirectorQueueStatus.pending;
  title = "a question";
  source_project_id = some pid;
  source_agent = none;
  context = "";
  resolved_at = none;
  resolved_by = none;
  resolution = none;
}

abbrev desk : Desk
desk = record {
  is_paused = false;
  director = question "1" "p" ∷ question "2" "q" ∷ question "3" "p" ∷ [];
  ceo = [];
  sessions = "q" ∷ [];
  turns = [];
}

abbrev clock : Clock
clock = record { is_recent = λ i. true; show = λ n. "2"; fresh = λ type. "alert" }

process_director_queue-turns_example :
    let after = process_director_queue clock desk in
    (desk.is_paused ≡ true → after ≡ desk)
    × (desk.is_paused ≡ false
        → (added : List String) × (after.turns ≡ desk.turns ++ added)
          × IsDistinct added
          × ((pid : String)
              → IsIn pid added
                ↔ (HasItem is_pending pid desk.director × (elem pid desk.sessions ≡ false))))
    × (after.director ≡ desk.director)
process_director_queue-turns_example = process_director_queue-turns clock desk

process_director_queue-alerts_example :
    ((type : EscalationRequestType)
      → 2 ≤ length (distinct (projects_of (is_counted clock type) desk.director))
      → HasAlert (process_director_queue clock desk).ceo type)
    × ((process_director_queue clock (process_director_queue clock desk)).ceo
        ≡ (process_director_queue clock desk).ceo)
process_director_queue-alerts_example = process_director_queue-alerts clock desk refl

-- A stage execution that edits are attached to.
abbrev building : Engine
building = record engine {
  stage_executions =
      record {
        id = "s";
        project_id = "p";
        stage_name = "build";
        stage_index = 0;
        status = StageStatus.active;
        started_at = none;
        completed_at = none;
      }
      ∷ [];
}

abbrev edits : List Edit
edits =
    record { operation = "fix_bug"; description = "the menu" }
    ∷ record { operation = "add_feature"; description = "" }
    ∷ []

create_batch_edit_taskgroups-IsNumbered_example :
    (rows : List TaskGroupExecution) × (create_batch_edit_taskgroups [] "p"
        (λ n. ("x", "t"))
        0
        edits
        building
      ≡ (
        record building { taskgroups = building.taskgroups ++ rows },
        all_created (map (λ (t : TaskGroupExecution). t.id) rows),
      ))
    × IsNumbered "p" "s" (count_taskgroups "p" building.taskgroups) edits rows
unfolding find_project latest_stage
create_batch_edit_taskgroups-IsNumbered_example =
    create_batch_edit_taskgroups-IsNumbered [] "p" (λ n. ("x", "t")) 0 edits building refl refl
