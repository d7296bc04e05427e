-- ===== src/Tools/Tasks/Queries.antt =====
-- What task_query of tools/task.py returns where the session's project id cannot be read.
use auto_builder.Base.{String, Option, none, true, false, List, [], ◌∷◌, ◌≡◌, refl, select, ap}
use auto_builder.Model.Values.{State, is_none}
use auto_builder.Tools.Tasks.{
  ProjectTask, invalid_project, tasks, Text, project_id_raw, project_of, has_session, task_create,
  task_query,
}

-- Where the state's project id is no UUID, task_create refuses to add a task, but task_query takes it for
-- no project at all: with a session and no filter it returns exactly the tasks of all projects.
task_query-invalid :
    (t : Text) (state : State) (rows : List ProjectTask)
    → is_none (project_id_raw state) ≡ false
    → t.parse_uuid (t.str (project_id_raw state)) ≡ none
    → has_session state ≡ true
    → ((id title description : String) (assignee : Option String) (tags : List String)
        → task_create t state id title description assignee tags rows ≡ (rows, invalid_project))
      × (task_query t state none none rows ≡ tasks rows)
unfolding task_create task_query project_of
task_query-invalid t state rows given bad there = (
  λ id title description assignee tags. rw (given, bad) refl,
  rw (there, given, bad) (ap tasks (select_all rows)),
)
  where
    select_all : (xs : List ProjectTask) → select (λ r. true) xs ≡ xs
    select_all [] = refl
    select_all (x ∷ xs) = ap (λ ys. x ∷ ys) (select_all xs)
