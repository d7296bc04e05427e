-- ===== src/Model.antt =====
-- The shared data of the program: the status words of models/enums.py, the rows of db/models.py
-- with the columns that the modelled code reads or writes, and the world that an operation acts on
-- (tables, pause flags in Redis, the job queue, and the event stream).
--
-- A UUID column is held as its canonical text `str(id)`, which is also what `depends_on`, the flag
-- keys and the job arguments hold. A time is a number that the caller passes as `now`. An amount of
-- money is counted in ten-thousandths, the scale of its column.
mod Status
pub mod Rows
pub mod Values
unfoldable pub use Status.*
use auto_builder.Base.{
  ℕ, String, Option, none, some, Bool, true, false, List, [], ◌∷◌, ◌++◌, map, find, ◌==◌,
  if◌then◌else◌, Dict,
}
use Rows.{Project, Deliverable, DirectorQueueItem}

-- The `scope` and `actor` texts of a status event are kept as texts.
pub data Event : Type 0 where
  project_status_changed :
      (project_id : String) (old_status new_status : ProjectStatus)
      (actor scope workflow_type : Option String)
      → Event
  director_paused : (reason : Option String) (flagged_projects : List String) → Event
  director_resumed : (resumed_projects : List String) → Event
  system_pause : (reason : Option String) (paused_projects : List String) → Event
  system_resume : (resumed_projects : List String) → Event
  stage_started : (stage_name : String) (stage_index : ℕ) → Event
  stage_completed : (project_id stage_name : String) → Event
  batch_completed : (project_id : String) (statuses : List (String × DeliverableStatus)) → Event

-- A `run_work_session` job, with the text of `resume_resolution` where it is given.
pub record Job : Type 0 where
  pub project_id : String
  pub resume_resolution : Option String

-- `director_flag` is the Redis key `director:paused`, and `pause_flags` holds the keys
-- `project:pause_requested:{id}` by their project.
pub record World : Type 0 where
  pub projects : List Project
  pub deliverables : List Deliverable
  pub director_flag : Option String
  pub pause_flags : Dict String
  pub jobs : List Job
  pub events : List Event
  pub director_queue : List DirectorQueueItem

-- `select(Project).where(Project.id == pid)`, `scalar_one_or_none`.
unfoldable pub find_project : String → World → Option Project
unfolding find
find_project pid w = find (λ p. p.id == pid) w.projects

-- A row that a session has changed, written back by its primary key.
unfoldable pub update_rows : String → (Project → Project) → List Project → List Project
update_rows pid f [] = []
update_rows pid f (p ∷ ps) = (if p.id == pid then f p else p) ∷ update_rows pid f ps

abbrev pub update_project : String → (Project → Project) → World → World
update_project pid f w = record w { projects = update_rows pid f w.projects }

abbrev pub publish : Event → World → World
publish e w = record w { events = w.events ++ e ∷ [] }

abbrev pub enqueue : Job → World → World
enqueue j w = record w { jobs = w.jobs ++ j ∷ [] }
