-- ===== src/Deliverables/Update.antt =====
-- update_deliverable and reorder_deliverables of tools/management.py. `parse_uuid` is
-- `str(uuid.UUID(s))`, or `none` where the constructor raises; it stands outside the repository.
pub mod Finality
pub mod Positions
use auto_builder.Base.{
  ℕ, zero, suc, ◌+◌, String, Option, none, some, Bool, true, false, List, [], ◌∷◌, map, find, any,
  select, ◌==◌, ◌&&◌, not, if◌then◌else◌, elem, length,
}
use auto_builder.Model.{
  DeliverableStatus, pending, in_progress, completed, failed, blocked, planned, skipped,
  same_deliverable_status,
}
use auto_builder.Model.Rows.{Deliverable}

-- _VALID_TRANSITIONS; a status with no entry allows nothing.
unfoldable pub valid_transitions : DeliverableStatus → List DeliverableStatus
valid_transitions planned = pending ∷ in_progress ∷ []
valid_transitions pending = in_progress ∷ blocked ∷ []
valid_transitions in_progress = completed ∷ failed ∷ skipped ∷ blocked ∷ []
valid_transitions failed = in_progress ∷ skipped ∷ []
valid_transitions blocked = pending ∷ in_progress ∷ []
valid_transitions _ = []

-- `DeliverableStatus(status)`, which raises at any other text.
unfoldable pub parse_status : String → Option DeliverableStatus
parse_status s =
    if s == "PENDING"
    then some pending
    else if s == "IN_PROGRESS"
    then some in_progress
    else if s == "COMPLETED"
    then some completed
    else if s == "FAILED"
    then some failed
    else if s == "BLOCKED"
    then some blocked
    else if s == "PLANNED"
    then some planned
    else if s == "SKIPPED"
    then some skipped
    else none

pub data UpdateReply : Type 0 where
  invalid_input not_found : UpdateReply
  invalid_transition : (old_status new_status : DeliverableStatus) → UpdateReply
  ok : (new_status : DeliverableStatus) (retry_count : ℕ) → UpdateReply

-- The row with the primary key.
unfoldable pub find_row : String → List Deliverable → Option Deliverable
unfolding find
find_row did = find (λ d. d.id == did)

unfoldable pub write_row : Deliverable → List Deliverable → List Deliverable
write_row r [] = []
write_row r (d ∷ ds) = (if d.id == r.id then r else d) ∷ write_row r ds

abbrev pub is_allowed : DeliverableStatus → DeliverableStatus → Bool
is_allowed old new = any (same_deliverable_status new) (valid_transitions old)

-- A retry, FAILED to IN_PROGRESS, is counted.
unfoldable pub updated : ℕ → DeliverableStatus → Deliverable → Deliverable
updated now new d = record d {
  status = new;
  retry_count =
      if same_deliverable_status d.status failed && same_deliverable_status new in_progress
      then d.retry_count + 1
      else d.retry_count;
  updated_at = now;
}

unfoldable pub update_found :
    ℕ → DeliverableStatus → Option Deliverable → List Deliverable → List Deliverable × UpdateReply
unfolding updated
update_found now new none rows = (rows, not_found)
update_found now new (some d) rows =
    if is_allowed d.status new
    then (write_row (updated now new d) rows, ok new (updated now new d).retry_count)
    else (rows, invalid_transition d.status new)

abbrev update_parsed :
    ℕ → Option String → Option DeliverableStatus → List Deliverable → List Deliverable × UpdateReply
update_parsed now none new rows = (rows, invalid_input)
update_parsed now (some did) none rows = (rows, invalid_input)
update_parsed now (some did) (some new) rows = update_found now new (find_row did rows) rows

pub data ReorderReply : Type 0 where
  invalid_input not_found : ReorderReply
  ok : (reordered : ℕ) → ReorderReply

module _ (parse_uuid : String → Option String) where
  unfoldable pub update_deliverable :
      ℕ → String → String → List Deliverable → List Deliverable × UpdateReply
  update_deliverable now deliverable_id status rows =
      update_parsed now (parse_uuid deliverable_id) (parse_status status) rows

  -- `uuid.UUID(did_str)` for each id of the order.
  unfoldable pub all_parse : List String → Bool
  all_parse [] = true
  all_parse (s ∷ ss) = elim (parse_uuid s) [ none ↦ false | some _ ↦ all_parse ss ]

abbrev set_order : String → ℕ → Deliverable → Deliverable
set_order did n d = if d.id == did then record d { execution_order = some n } else d

-- `for idx, did_str in enumerate(order)`; a later mention of an id overwrites an earlier one.
unfoldable pub assign_orders : ℕ → List String → List Deliverable → List Deliverable
assign_orders n [] rows = rows
assign_orders n (did ∷ order) rows = assign_orders (suc n) order (map (set_order did n) rows)

-- Every id of the order is the text of a deliverable's id.
unfoldable pub all_known : List String → List Deliverable → Bool
unfolding any
all_known [] rows = true
all_known (did ∷ order) rows = any (λ (d : Deliverable). d.id == did) rows && all_known order rows

abbrev pub is_of_project : String → Deliverable → Bool
is_of_project pid d = elim d.project_id [ none ↦ false | some owner ↦ owner == pid ]

module _ (parse_uuid : String → Option String) where
  -- The project's id, parsed.
  abbrev pub reorder_parsed :
      Option String → List String → List Deliverable → List Deliverable × ReorderReply
  reorder_parsed none order rows = (rows, invalid_input)
  reorder_parsed (some pid) order rows =
      if not (all_parse parse_uuid order)
      then (rows, invalid_input)
      else if not (all_known order (select (is_of_project pid) rows))
      then (rows, not_found)
      else (assign_orders 0 order rows, ok (length order))

  unfoldable pub reorder_deliverables :
      String → List String → List Deliverable → List Deliverable × ReorderReply
  unfolding all_parse all_known assign_orders select
  reorder_deliverables project_id order rows = reorder_parsed (parse_uuid project_id) order rows
