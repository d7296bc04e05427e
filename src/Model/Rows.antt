-- ===== src/Model/Rows.antt =====
-- Rows of db/models.py: the columns that the modelled code reads or writes.
use auto_builder.Base.{ℕ, String, Option, List}
use auto_builder.Model.Status.{DeliverableStatus, ProjectStatus}

pub record Project : Type 0 where
  pub id : String
  pub workflow_type : String
  pub status : ProjectStatus
  pub accumulated_cost : ℕ
  pub started_at : Option ℕ
  pub completed_at : Option ℕ
  pub error_message : Option String
  pub updated_at : ℕ

pub record Deliverable : Type 0 where
  pub id : String
  pub project_id : Option String
  pub name : String
  pub status : DeliverableStatus
  pub depends_on : List String
  pub retry_count : ℕ
  pub execution_order : Option ℕ
  pub updated_at : ℕ

pub data EscalationPriority : Type 0 where
  low normal high critical : EscalationPriority

pub data EscalationRequestType : Type 0 where
  escalation status_report resource_request pattern_alert : EscalationRequestType

pub data DirectorQueueStatus : Type 0 where
  pending in_progress resolved forwarded_to_ceo : DirectorQueueStatus

pub data CeoItemType : Type 0 where
  notification approval escalation task : CeoItemType

pub data CeoQueueStatus : Type 0 where
  pending seen resolved dismissed : CeoQueueStatus

pub record DirectorQueueItem : Type 0 where
  pub id : String
  pub type : EscalationRequestType
  pub priority : EscalationPriority
  pub status : DirectorQueueStatus
  pub title : String
  pub source_project_id : Option String
  pub source_agent : Option String
  pub context : String
  pub resolved_at : Option ℕ
  pub resolved_by : Option String
  pub resolution : Option String

pub record CeoQueueItem : Type 0 where
  pub id : String
  pub type : CeoItemType
  pub priority : EscalationPriority
  pub status : CeoQueueStatus
  pub title : String
  pub source_project_id : Option String
  pub source_agent : Option String
  pub forwarded_from : Option String
  pub resolved_at : Option ℕ
  pub resolved_by : Option String
  pub resolution : Option String
