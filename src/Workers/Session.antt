-- ===== src/Workers/Session.antt =====
-- run_work_session of workers/tasks.py, on its tables and keys. `uuid.UUID(project_id)` is given. Three parts
-- of it are functions of the office, with all that they and others write meanwhile, and tell how they end:
-- the setup (formation, agents, manifest and session), the run of the agents with the recreation of their
-- context, and the stage loop, which is modelled in Stages.
pub mod Start
pub mod Ends
use Prim.Native.String
use auto_builder.Base.{
  ℕ, zero, suc, ◌+◌, String, Option, none, some, Bool, true, false, List, [], ◌∷◌, ◌++◌, select,
  ◌==◌, ◌&&◌, is_nil, if◌then◌else◌, Dict, insert, delete,
}
use auto_builder.Model.{
  ProjectStatus, shaping, active, same_project_status, World, find_project, update_project, publish,
  project_status_changed,
}
use auto_builder.Model.Rows.{Project, CeoQueueItem, EscalationPriority, CeoItemType, CeoQueueStatus}
use auto_builder.Workers.State.{Engine, Run}
use auto_builder.Workers.Batch.{in_world}

-- A value of a configuration. `negative n` is -(n + 1), and a float is the number of its 64 bits.
pub data ConfigValue : Type 0 where
  bool : Bool → ConfigValue
  int : ℕ → ConfigValue
  negative : ℕ → ConfigValue
  float : (bits : ℕ) → ConfigValue
  other : ConfigValue

-- Of the configuration, the two limits that the batch loop reads; a missing one is `other`.
pub record ProjectConfig : Type 0 where
  pub project_id : Option String
  pub project_name : String
  pub cost_ceiling : ConfigValue
  pub deliverable_retry_limit : ConfigValue

pub data SessionEvent : Type 0 where
  workflow_started workflow_completed : SessionEvent
  workflow_failed : (error : String) → SessionEvent

-- `sessions` holds the keys `director:work_session:{project_id}`; `lifecycle` the events, each with the
-- session that it is about.
pub record Office : Type 0 where
  pub engine : Engine
  pub configs : List ProjectConfig
  pub ceo : List CeoQueueItem
  pub sessions : Dict String
  pub lifecycle : List (String × SessionEvent)

pub data Agents : Type 0 where
  finished : Agents
  recreated : (new_session_id : String) → Agents
  raised : (error : String) → Agents

-- The defaults of the settings stand in `run`; `scale` is `float(…)` of a number in the unit of the costs.
-- `setup` and `loop` tell the error that they raise, if any.
pub record Attempt : Type 0 where
  pub project_id : String
  pub project_uuid : Option String
  pub run : Run
  pub setup : Office → Office × Option String
  pub agents : Run → Office → Office × Agents
  pub loop : Run → Office → Office × Option String
  pub many_rows : String
  pub scale : ConfigValue → ℕ
  pub fresh_item : String
  pub failure_title : String → String

pub data SessionReply : Type 0 where
  completed : (project_id : String) → SessionReply
  raised : (error : String) → SessionReply

-- `scalar_one_or_none()`, which raises on more than one row.
pub data OneRow : Type 0 where
  no_row : OneRow
  one : ProjectConfig → OneRow
  many : OneRow

abbrev pub scalar : List ProjectConfig → OneRow
scalar [] = no_row
scalar (c ∷ []) = one c
scalar (_ ∷ _ ∷ _) = many

abbrev pub has_id : String → ProjectConfig → Bool
has_id pid c = elim c.project_id [ none ↦ false | some owner ↦ owner == pid ]

abbrev pub or_named : OneRow → OneRow → OneRow
or_named no_row named = named
or_named found named = found

-- The configuration by the project's id, or else by its name.
unfoldable pub find_config : Attempt → List ProjectConfig → OneRow
unfolding select
find_config a configs =
    let named = scalar (select (λ c. c.project_name == a.project_id) configs) in
    elim a.project_uuid [
      | none ↦ named
      | some pid ↦ or_named (scalar (select (has_id pid) configs)) named
    ]

-- `int` where the value is one; a Boolean is an int. The limit is only compared with counts, for which a
-- negative one is like 0.
abbrev pub int_or : ConfigValue → ℕ → ℕ
int_or (int n) default = n
int_or (bool true) default = 1
int_or (bool false) default = 0
int_or (negative _) default = 0
int_or _ default = default

abbrev pub amount_or : (ConfigValue → ℕ) → ConfigValue → ℕ → ℕ
amount_or scale other default = default
amount_or scale v default = scale v

abbrev pub with_limits : Attempt → ProjectConfig → Run
with_limits a c = record a.run {
  cost_ceiling = amount_or a.scale c.cost_ceiling a.run.cost_ceiling;
  retry_limit = int_or c.deliverable_retry_limit a.run.retry_limit;
}

-- SHAPING becomes ACTIVE; the event carries no actor, scope or workflow type.
unfoldable pub activate_found : Attempt → Option Project → World → World
activate_found a none w = w
activate_found a (some p) w =
    if same_project_status p.status shaping
    then publish (project_status_changed a.project_id shaping active none none none)
        (update_project p.id (λ q. record q { status = active; started_at = some a.run.now }) w)
    else w

unfoldable pub activate : Attempt → Engine → Engine
unfolding activate_found find_project
activate a e = elim a.project_uuid [
  | none ↦ e
  | some pid ↦ in_world (λ w. activate_found a (find_project pid w) w) e
]

abbrev pub session_of : Attempt → String
session_of a = String.◌++◌ "work_session_" a.project_id

abbrev pub failure_item : Attempt → CeoQueueItem
failure_item a = record {
  id = a.fresh_item;
  type = CeoItemType.escalation;
  priority = EscalationPriority.high;
  status = CeoQueueStatus.pending;
  title = a.failure_title a.project_id;
  source_project_id = a.project_uuid;
  source_agent = some "director";
  forwarded_from = none;
  resolved_at = none;
  resolved_by = none;
  resolution = none;
}

abbrev pub log : String → SessionEvent → Office → Office
log session event o = record o { lifecycle = o.lifecycle ++ (session, event) ∷ [] }

abbrev pub release : Attempt → Office → Office
release a o = record o { sessions = delete a.project_id o.sessions }

-- The `except` clause.
unfoldable pub fail : Attempt → String → String → Office → Office × SessionReply
unfolding delete
fail a session error o = (
  log session (workflow_failed error) (release a (record o { ceo = o.ceo ++ failure_item a ∷ [] })),
  raised error,
)

abbrev pub end_session : Attempt → String → Office → Office × SessionReply
end_session a session o = (log session workflow_completed (release a o), completed a.project_id)

unfoldable pub after_loop : Attempt → String → Office × Option String → Office × SessionReply
unfolding fail delete
after_loop a session (o, none) = end_session a session o
after_loop a session (o, some error) = fail a session error o

-- The stage loop runs for a project with a UUID and a manifest with stages.
unfoldable pub conclude : Attempt → String → Run → Office → Office × SessionReply
unfolding after_loop
conclude a session r o = elim a.project_uuid [
  | none ↦ end_session a session o
  | some _ ↦
      if is_nil r.manifest.stages
      then end_session a session o
      else after_loop a session (a.loop r o)
]

unfoldable pub after_agents : Attempt → Run → Office × Agents → Office × SessionReply
unfolding fail conclude
after_agents a r (o, finished) = conclude a (session_of a) r o
after_agents a r (o, recreated session) = conclude a session r o
after_agents a r (o, raised error) = fail a (session_of a) error o

abbrev pub opened : Attempt → Office → Office
opened a o =
    log (session_of a) workflow_started
      (record o { sessions = insert a.project_id (session_of a) o.sessions })

unfoldable pub after_setup : Attempt → Run → Office × Option String → Office × SessionReply
unfolding after_agents fail insert
after_setup a r (o, some error) = fail a (session_of a) error o
after_setup a r (o, none) = after_agents a r (a.agents r (opened a o))

-- With the configuration's limits, or with the defaults.
unfoldable pub configured : Attempt → OneRow → Office → Office × SessionReply
unfolding after_setup activate fail
configured a many o = fail a (session_of a) a.many_rows o
configured a no_row o = after_setup a a.run (a.setup (record o { engine = activate a o.engine }))
configured a (one c) o =
    after_setup a (with_limits a c) (a.setup (record o { engine = activate a o.engine }))

unfoldable pub run_work_session : Attempt → Office → Office × SessionReply
unfolding configured find_config
run_work_session a o = configured a (find_config a o.configs) o
