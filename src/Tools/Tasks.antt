-- ===== src/Tools/Tasks.antt =====
-- The shared task tools of tools/task.py. `parse_uuid` is uuid.UUID with the canonical text, `str` Python's
-- text of a value, and `strip` str.strip.
pub mod Queries
use Prim.Native.String
use auto_builder.Base.{
  ℕ, String, Option, none, some, Bool, true, false, List, [], ◌∷◌, ◌++◌, find, select, ◌==◌, ◌&&◌,
  if◌then◌else◌,
}
use auto_builder.Model.Values.{Value, null, State, get, truthy, is_none}

-- `open` is a word of the language.
pub data TaskStatus : Type 0 where
  open_ in_progress done blocked : TaskStatus

-- The times are not kept.
pub record ProjectTask : Type 0 where
  pub id : String
  pub project_id : Option String
  pub title : String
  pub description : String
  pub status : TaskStatus
  pub assignee : Option String
  pub tags : List String
  pub notes : Option String

pub data TaskReply : Type 0 where
  invalid_project invalid_status invalid_task_id not_found db_error : TaskReply
  task : ProjectTask → TaskReply
  tasks : List ProjectTask → TaskReply

pub record Text : Type 0 where
  pub parse_uuid : String → Option String
  pub str : Value → String
  pub strip : String → String

-- TaskStatus(text)
unfoldable pub parse_status : String → Option TaskStatus
parse_status s =
    if s == "OPEN"
    then some open_
    else if s == "IN_PROGRESS"
    then some in_progress
    else if s == "DONE"
    then some done
    else if s == "BLOCKED"
    then some blocked
    else none

unfoldable pub same_status : TaskStatus → TaskStatus → Bool
same_status open_ open_ = true
same_status in_progress in_progress = true
same_status done done = true
same_status blocked blocked = true
same_status _ _ = false

-- `state.get("project_id") or state.get("pm:project_id")`
unfoldable pub project_id_raw : State → Value
unfolding get
project_id_raw state =
    if truthy (get state "project_id") then get state "project_id" else get state "pm:project_id"

-- The tools find no database without a session id.
abbrev pub has_session : State → Bool
has_session state = elim (get state "_session_id") [ null ↦ false | _ ↦ true ]

module _ (t : Text) where
  unfoldable pub project_of : State → Option String
  unfolding project_id_raw
  project_of state =
      if is_none (project_id_raw state) then none else t.parse_uuid (t.str (project_id_raw state))

  abbrev pub add_task : State → ProjectTask → List ProjectTask → List ProjectTask × TaskReply
  add_task state row rows =
      if has_session state then (rows ++ row ∷ [], task row) else (rows, db_error)

  abbrev pub new_task :
      String → String → String → Option String → List String → Option String → ProjectTask
  new_task id title description assignee tags project = record {
    id = id;
    project_id = project;
    title = title;
    description = description;
    status = open_;
    assignee = assignee;
    tags = tags;
    notes = none;
  }

  unfoldable pub task_create :
      State
      → String
      → String
      → String
      → Option String
      → List String
      → List ProjectTask
      → List ProjectTask × TaskReply
  unfolding project_id_raw get
  task_create state id title description assignee tags rows =
      let raw = project_id_raw state in
      if is_none raw
      then add_task state (new_task id title description assignee tags none) rows
      else elim (t.parse_uuid (t.str raw)) [
        | none ↦ (rows, invalid_project)
        | some pid ↦ add_task state (new_task id title description assignee tags (some pid)) rows
      ]

  -- Notes are joined by a newline, and stripped only then.
  abbrev pub add_notes : Option String → Option String → Option String
  add_notes old none = old
  add_notes none (some notes) = some notes
  add_notes (some String.[]) (some notes) = some notes
  add_notes (some (String.◌∷◌ c s)) (some notes) =
      some (t.strip (String.◌++◌ (String.◌∷◌ c s) (String.◌++◌ "\n" notes)))

  abbrev pub with_status : Option TaskStatus → TaskStatus → TaskStatus
  with_status none old = old
  with_status (some new) old = new

  abbrev pub updated : Option TaskStatus → Option String → ProjectTask → ProjectTask
  updated status notes row = record row {
    status = with_status status row.status;
    notes = add_notes row.notes notes;
  }

  unfoldable pub write_task : ProjectTask → List ProjectTask → List ProjectTask
  write_task new [] = []
  write_task new (row ∷ rows) = (if row.id == new.id then new else row) ∷ write_task new rows

  unfoldable pub update_found :
      Option TaskStatus
      → Option String
      → Option ProjectTask
      → List ProjectTask
      → List ProjectTask × TaskReply
  unfolding write_task
  update_found status notes none rows = (rows, not_found)
  update_found status notes (some row) rows =
      (write_task (updated status notes row) rows, task (updated status notes row))

  abbrev pub update_in :
      State
      → Option String
      → Option String
      → Option TaskStatus
      → List ProjectTask
      → List ProjectTask × TaskReply
  update_in state none notes status rows = (rows, invalid_task_id)
  update_in state (some tid) notes status rows =
      if has_session state
      then update_found status notes (find (λ (r : ProjectTask). r.id == tid) rows) rows
      else (rows, db_error)

  unfoldable pub task_update :
      State
      → String
      → Option String
      → Option String
      → List ProjectTask
      → List ProjectTask × TaskReply
  unfolding parse_status update_found find get
  task_update state task_id none notes rows = update_in state (t.parse_uuid task_id) notes none rows
  task_update state task_id (some status) notes rows = elim (parse_status status) [
    | none ↦ (rows, invalid_status)
    | some s ↦ update_in state (t.parse_uuid task_id) notes (some s) rows
  ]

  abbrev pub is_of : Option String → Option String → Bool
  is_of none column = true
  is_of (some wanted) none = false
  is_of (some wanted) (some value) = value == wanted

  abbrev pub is_in_status : Option TaskStatus → TaskStatus → Bool
  is_in_status none status = true
  is_in_status (some wanted) status = same_status status wanted

  -- An id that does not parse counts as no project.
  abbrev pub query : State → Option TaskStatus → Option String → List ProjectTask → TaskReply
  query state status assignee rows =
      if has_session state
      then tasks (
          select
            (λ r.
              is_of (project_of state) r.project_id
              && (is_in_status status r.status && is_of assignee r.assignee))
            rows)
      else db_error

  unfoldable pub task_query : State → Option String → Option String → List ProjectTask → TaskReply
  unfolding parse_status project_of select same_status get
  task_query state none assignee rows = query state none assignee rows
  task_query state (some filter) assignee rows = elim (parse_status filter) [
    | none ↦ invalid_status
    | some s ↦ query state (some s) assignee rows
  ]
