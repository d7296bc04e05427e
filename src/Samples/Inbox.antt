-- ===== src/Samples/Inbox.antt =====
-- Sample runs on the queues, and of the access check.
use auto_builder.Base.{◌↔◌, true, String, none, some, List, [], ◌∷◌, ◌≡◌, refl, elem}
use auto_builder.Model.Rows.{
  DirectorQueueItem, CeoQueueItem, normal, EscalationRequestType, CeoItemType, DirectorQueueStatus,
  CeoQueueStatus,
}
use auto_builder.Queues.{Queues, CeoRequest, find_ceo}
use auto_builder.Queues.Resolution.{Call, serve, serve_closed}
use auto_builder.Queues.Forwarding.{resolving}
use auto_builder.Access.{determine_agent_tier, validate_state_delta}
use auto_builder.Access.Tiers.{IsDenied, validate_state_delta_iff}

abbrev ceo_item : String → CeoQueueStatus → CeoQueueItem
ceo_item id status = record {
  id = id;
  type = CeoItemType.escalation;
  priority = normal;
  status = status;
  title = "help";
  source_project_id = some "p";
  source_agent = some "pm";
  forwarded_from = none;
  resolved_at = none;
  resolved_by = none;
  resolution = none;
}

abbrev director_item : DirectorQueueItem
director_item = record {
  id = "d1";
  type = EscalationRequestType.escalation;
  priority = normal;
  status = DirectorQueueStatus.pending;
  title = "help";
  source_project_id = some "p";
  source_agent = some "pm";
  context = "help";
  resolved_at = none;
  resolved_by = none;
  resolution = none;
}

abbrev queues : Queues
queues = record {
  director = director_item ∷ [];
  ceo = ceo_item "c1" CeoQueueStatus.pending ∷ ceo_item "c2" CeoQueueStatus.dismissed ∷ [];
  jobs = [];
}

abbrev go_on : CeoRequest
go_on = resolving (some "go on") "ceo"

abbrev calls : List Call
calls =
    record { now = 5; item_id = "c2"; request = go_on }
    ∷ record { now = 6; item_id = "c1"; request = go_on }
    ∷ []

serve_closed_example :
    find_ceo "c2" (serve calls queues).ceo ≡ some (ceo_item "c2" CeoQueueStatus.dismissed)
unfolding find_ceo
serve_closed_example =
    serve_closed calls queues "c2" (ceo_item "c2" CeoQueueStatus.dismissed) refl refl

abbrev uncut : String → String
uncut s = s

abbrev keys : List String
keys = "pm:batch" ∷ "director:goal" ∷ "lint_passed" ∷ []

validate_state_delta_iff_example :
    (elem "director:goal" (validate_state_delta keys (determine_agent_tier uncut "pm_1")) ≡ true)
    ↔ ((elem "director:goal" keys ≡ true) × IsDenied "pm_1" "director:goal")
validate_state_delta_iff_example = validate_state_delta_iff uncut "pm_1" keys "director:goal"
