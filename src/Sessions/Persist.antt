-- ===== src/Sessions/Persist.antt =====
-- The callback of create_deliverable_checkpoint_callback of agents/supervision.py: a deliverable's
-- status goes from the session's state into its row, whatever status the row has. `parse_uuid` is
-- `str(uuid.UUID(s))`, or `none` where the constructor raises.
pub mod Agreement
use auto_builder.Base.{
  ℕ, String, Option, none, some, Bool, true, false, List, [], ◌∷◌, if◌then◌else◌,
}
use auto_builder.Model.{DeliverableStatus}
use auto_builder.Model.Rows.{Deliverable}
use auto_builder.Model.Values.{Value, text, dict, end, State, get, has, is_none}
use auto_builder.Deliverables.Update.{find_row, write_row, parse_status}
use auto_builder.Sessions.State.{put, status_key}
use auto_builder.Sessions.Supervision.{get_or, status_of_output, str}

-- The callback returns without an event, the conversion of the status raises, or an event is published.
pub data Checkpointed : Type 0 where
  silent raised : Checkpointed
  published :
      (deliverable_id deliverable_status : String) (checkpoint_persisted : Bool) → Checkpointed

abbrev pub with_checkpoint : ℕ → DeliverableStatus → Deliverable → Deliverable
with_checkpoint now s d = record d { status = s; updated_at = now }

-- The texts are the id and the status that the event carries.
abbrev pub persist_status :
    ℕ
    → String
    → String
    → Option DeliverableStatus
    → Deliverable
    → List Deliverable
    → List Deliverable × Checkpointed
persist_status now did status none d rows = (rows, raised)
persist_status now did status (some s) d rows =
    (write_row (with_checkpoint now s d) rows, published did status true)

abbrev pub persist_found :
    ℕ → String → String → Option Deliverable → List Deliverable → List Deliverable × Checkpointed
persist_found now did status none rows = (rows, published did status false)
persist_found now did status (some d) rows =
    persist_status now did status (parse_status status) d rows

abbrev pub persist_parsed :
    ℕ → String → String → Option String → List Deliverable → List Deliverable × Checkpointed
persist_parsed now did status none rows = (rows, silent)
persist_parsed now did status (some id) rows = persist_found now did status (find_row id rows) rows

module _ (parse_uuid : String → Option String) (show : Value → String) where
  -- The status key's value, or else what the pipeline's output stands for.
  abbrev pub status_raw : String → State → String
  status_raw did state =
      let stored = get state (status_key did) in
      if is_none stored
      then status_of_output (get_or (dict end) "pipeline_output" state)
      else str show stored

  abbrev pub checkpoint_id :
      ℕ → Value → State → List Deliverable → State × List Deliverable × Checkpointed
  checkpoint_id now (text did) state rows =
      let status = status_raw did state in
      let (rows', reply) = persist_parsed now did status (parse_uuid did) rows in
      (put (status_key did) (text status) state, rows', reply)
  checkpoint_id now _ state rows = (state, rows, silent)

  unfoldable pub checkpoint_deliverable :
      ℕ → State → List Deliverable → State × List Deliverable × Checkpointed
  unfolding get has put find_row write_row parse_status
  checkpoint_deliverable now state rows =
      checkpoint_id now (get state "current_deliverable_id") state rows
