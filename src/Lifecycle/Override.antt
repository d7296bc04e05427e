-- ===== src/Lifecycle/Override.antt =====
-- The tool override_pm of tools/management.py: a direct change of a project's status by the
-- Director, with a resolved item in the Director's queue as its record. `dumps` is the JSON text of
-- the action's result for a project, and the new item's id is an argument.
pub mod Silence
use Prim.Native.String
use auto_builder.Base.{ℕ, String, Option, none, some, Bool, List, [], ◌∷◌, ◌++◌, if◌then◌else◌}
use auto_builder.Model.{
  ProjectStatus, active, paused, same_project_status, World, find_project, update_project,
}
use auto_builder.Model.Rows.{
  Project, DirectorQueueItem, EscalationPriority, EscalationRequestType, DirectorQueueStatus,
}
use auto_builder.Lifecycle.Single.{with_status}

pub data PmOverrideAction : Type 0 where
  pause resume reorder correct : PmOverrideAction

pub data OverrideReply : Type 0 where
  invalid_input not_found : OverrideReply
  invalid_state : (status : ProjectStatus) → OverrideReply
  ok : (override_id : String) → OverrideReply

-- `action.value`
abbrev pub value_of : PmOverrideAction → String
value_of pause = "PAUSE"
value_of resume = "RESUME"
value_of reorder = "REORDER"
value_of correct = "CORRECT"

-- A call's time, the id of its audit item, its project id as given, its action and its reason.
pub record Override : Type 0 where
  pub now : ℕ
  pub item_id : String
  pub project_id : String
  pub action : PmOverrideAction
  pub reason : String

module _ (dumps : PmOverrideAction → String → String) where
  abbrev pub audit_item : Override → String → DirectorQueueItem
  audit_item o pid = record {
    id = o.item_id;
    type = EscalationRequestType.status_report;
    priority = EscalationPriority.normal;
    status = DirectorQueueStatus.resolved;
    title =
        String.◌++◌ "PM override: " (String.◌++◌ (value_of o.action) (String.◌++◌ " — " o.reason));
    source_project_id = some pid;
    source_agent = some "director";
    context = dumps o.action o.project_id;
    resolved_at = some o.now;
    resolved_by = some "director";
    resolution = some o.reason;
  }

  abbrev pub record_audit : Override → String → World → World × OverrideReply
  record_audit o pid w =
      (record w { director_queue = w.director_queue ++ audit_item o pid ∷ [] }, ok o.item_id)

  -- The row changes where its status is the one that the action starts from.
  abbrev pub move :
      Override → ProjectStatus → ProjectStatus → Project → World → World × OverrideReply
  move o from to p w =
      if same_project_status p.status from
      then record_audit o p.id (update_project p.id (with_status to) w)
      else (w, invalid_state p.status)

  abbrev pub override_as : PmOverrideAction → Override → Project → World → World × OverrideReply
  override_as pause o p w = move o active paused p w
  override_as resume o p w = move o paused active p w
  override_as reorder o p w = record_audit o p.id w
  override_as correct o p w = record_audit o p.id w

  abbrev pub override_found : Override → Option Project → World → World × OverrideReply
  override_found o none w = (w, not_found)
  override_found o (some p) w = override_as o.action o p w

  abbrev pub override_parsed : Override → Option String → World → World × OverrideReply
  override_parsed o none w = (w, invalid_input)
  override_parsed o (some pid) w = override_found o (find_project pid w) w

unfoldable pub override_pm :
    (String → Option String)
    → (PmOverrideAction → String → String)
    → Override
    → World
    → World × OverrideReply
override_pm parse_uuid dumps o w = override_parsed dumps o (parse_uuid o.project_id) w
