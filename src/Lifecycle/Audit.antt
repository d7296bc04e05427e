-- ===== src/Lifecycle/Audit.antt =====
-- What the event stream tells about a project: the PROJECT_STATUS_CHANGED events of one project,
-- read in order, against the status diagram and the status that the project had before.
pub mod Rows
pub mod Singles
mod Bulks
pub mod Runs
use auto_builder.Base.{
  String, Option, none, some, Bool, true, false, List, [], ◌∷◌, ◌++◌, ◌≡◌, ◌==◌, ◌&&◌,
  if◌then◌else◌, map, elem,
}
use auto_builder.Model.{
  ProjectStatus, shaping, active, paused, suspended, completed, aborted, same_project_status, Event,
  project_status_changed, World,
}
use auto_builder.Model.Rows.{Project}
use auto_builder.Lifecycle.Bulk.{ids_of}

-- The diagram: completed and aborted are final, and nothing goes back to shaping.
abbrev pub can_become : ProjectStatus → ProjectStatus → Bool
can_become completed _ = false
can_become aborted _ = false
can_become _ aborted = true
can_become _ suspended = true
can_become shaping active = true
can_become active paused = true
can_become active completed = true
can_become paused active = true
can_become suspended active = true
can_become _ _ = false

pub data Tracked : Type 0 where
  broken : Tracked
  at : Option ProjectStatus → Tracked

-- The status of a project that has no row is `none`.
unfoldable pub status_in : String → List Project → Option ProjectStatus
status_in pid [] = none
status_in pid (p ∷ ps) = if p.id == pid then some p.status else status_in pid ps

-- An event of the project is in order if it starts at the status at hand and follows the diagram.
abbrev pub advance : Option ProjectStatus → ProjectStatus → ProjectStatus → Tracked
advance none old new = broken
advance (some s) old new =
    if same_project_status s old && can_become old new then at (some new) else broken

abbrev pub follow_at : String → Event → Option ProjectStatus → Tracked
follow_at pid (project_status_changed id old new _ _ _) s =
    if id == pid then advance s old new else at s
follow_at pid _ s = at s

abbrev pub follow : String → Event → Tracked → Tracked
follow pid e broken = broken
follow pid e (at s) = follow_at pid e s

unfoldable pub replay : String → List Event → Tracked → Tracked
replay pid [] t = t
replay pid (e ∷ es) t = replay pid es (follow pid e t)

-- Of two worlds, the later one's stream extends the earlier one's by events that take each project
-- from its earlier status to its later one. The table keeps its ids.
pub record IsAudited (w w' : World) : Type 0 where
  pub published : List Event
  pub extends : w'.events ≡ w.events ++ published
  pub same_ids : ids_of w'.projects ≡ ids_of w.projects
  pub explains :
      (pid : String)
      → replay pid published (at (status_in pid w.projects)) ≡ at (status_in pid w'.projects)

-- The ids are a primary key.
abbrev pub IsKeyed : List Project → Type 0
IsKeyed [] = Unit
IsKeyed (p ∷ ps) = (elem p.id (ids_of ps) ≡ false) × IsKeyed ps
