-- ===== src/Queues.antt =====
-- The queues of the Director and the CEO: gateway/routes/ceo_queue.py and director_queue.py, and the
-- tools of tools/management.py that put items there. A new row's id is chosen by the database and
-- is an argument; of an item's metadata only the id of the forwarded item is kept.
pub mod Resolution
pub mod Forwarding
use auto_builder.Base.{
  ℕ, String, Option, none, some, Bool, true, false, List, [], ◌∷◌, ◌++◌, find, ◌==◌, ◌&&◌,
  if◌then◌else◌, or_default,
}
use auto_builder.Model.Rows
use auto_builder.Model.Rows.{
  DirectorQueueItem, CeoQueueItem, EscalationPriority, normal, EscalationRequestType, CeoItemType,
  approval, escalation, DirectorQueueStatus, CeoQueueStatus, dismissed, forwarded_to_ceo,
}

-- The jobs that a resolution enqueues: `run_work_session` with an approval, and `apply_resolution`.
pub data QueueJob : Type 0 where
  approved_session :
      (project_id approval_item_id : String) (approval_resolution : Option String) → QueueJob
  apply_resolution : (project_id resolution : String) → QueueJob

pub record Queues : Type 0 where
  pub director : List DirectorQueueItem
  pub ceo : List CeoQueueItem
  pub jobs : List QueueJob

pub data CeoQueueAction : Type 0 where
  resolve dismiss : CeoQueueAction

pub data DirectorQueueAction : Type 0 where
  resolve forward_to_ceo : DirectorQueueAction

-- NotFoundError, ConflictError, or the item's response.
pub data RouteReply : Type 0 where
  not_found conflict ok : RouteReply

abbrev pub is_closed_ceo : CeoQueueStatus → Bool
is_closed_ceo CeoQueueStatus.resolved = true
is_closed_ceo CeoQueueStatus.dismissed = true
is_closed_ceo _ = false

abbrev pub is_closed_director : DirectorQueueStatus → Bool
is_closed_director DirectorQueueStatus.resolved = true
is_closed_director DirectorQueueStatus.forwarded_to_ceo = true
is_closed_director _ = false

unfoldable pub find_ceo : String → List CeoQueueItem → Option CeoQueueItem
unfolding find
find_ceo id = find (λ i. i.id == id)

unfoldable pub write_ceo : CeoQueueItem → List CeoQueueItem → List CeoQueueItem
write_ceo r [] = []
write_ceo r (i ∷ is) = (if i.id == r.id then r else i) ∷ write_ceo r is

unfoldable pub find_director : String → List DirectorQueueItem → Option DirectorQueueItem
unfolding find
find_director id = find (λ i. i.id == id)

unfoldable pub write_director : DirectorQueueItem → List DirectorQueueItem → List DirectorQueueItem
write_director r [] = []
write_director r (i ∷ is) = (if i.id == r.id then r else i) ∷ write_director r is

pub record CeoRequest : Type 0 where
  pub action : CeoQueueAction
  pub resolution : Option String
  pub resolver : String

abbrev pub settle_ceo : ℕ → CeoRequest → CeoQueueItem → CeoQueueItem
settle_ceo now r i =
    let closed = record i { resolved_at = some now; resolved_by = some r.resolver } in
    elim r.action [
      | CeoQueueAction.resolve ↦ record closed {
        status = CeoQueueStatus.resolved;
        resolution = r.resolution;
      }
      | dismiss ↦ record closed { status = CeoQueueStatus.dismissed }
    ]

-- The job of a resolved item, by its type and source project.
abbrev pub job_of : CeoItemType → String → Option String → Option String → List QueueJob
job_of t id resolution none = []
job_of CeoItemType.approval id resolution (some p) = approved_session p id resolution ∷ []
job_of CeoItemType.escalation id resolution (some p) =
    apply_resolution p (or_default resolution "") ∷ []
job_of _ id resolution (some p) = []

abbrev pub jobs_of : CeoRequest → CeoQueueItem → List QueueJob
jobs_of r i = elim r.action [
  | CeoQueueAction.resolve ↦ job_of i.type i.id r.resolution i.source_project_id
  | dismiss ↦ []
]

unfoldable pub resolve_ceo_found :
    ℕ → CeoRequest → Option CeoQueueItem → Queues → Queues × RouteReply
resolve_ceo_found now r none q = (q, not_found)
resolve_ceo_found now r (some i) q =
    if is_closed_ceo i.status
    then (q, conflict)
    else (record q { ceo = write_ceo (settle_ceo now r i) q.ceo; jobs = q.jobs ++ jobs_of r i }, ok)

unfoldable pub resolve_ceo_queue_item : ℕ → String → CeoRequest → Queues → Queues × RouteReply
unfolding resolve_ceo_found
resolve_ceo_queue_item now id r q = resolve_ceo_found now r (find_ceo id q.ceo) q

pub record DirectorRequest : Type 0 where
  pub action : DirectorQueueAction
  pub resolution : Option String

-- The CEO item that a forwarded item turns into.
abbrev pub forwarded : String → DirectorQueueItem → CeoQueueItem
forwarded new_id i = record {
  id = new_id;
  type = CeoItemType.escalation;
  priority = i.priority;
  status = CeoQueueStatus.pending;
  title = i.title;
  source_project_id = i.source_project_id;
  source_agent = i.source_agent;
  forwarded_from = some i.id;
  resolved_at = none;
  resolved_by = none;
  resolution = none;
}

abbrev settle_director : ℕ → String → DirectorRequest → DirectorQueueItem → Queues → Queues
settle_director now new_id r i q =
    let closed = record i { resolved_at = some now; resolved_by = some "director" } in
    elim r.action [
      | DirectorQueueAction.resolve ↦ record q {
        director =
            write_director
              (record closed { status = DirectorQueueStatus.resolved; resolution = r.resolution })
              q.director;
      }
      | forward_to_ceo ↦ record q {
        director =
            write_director (record closed { status = DirectorQueueStatus.forwarded_to_ceo })
              q.director;
        ceo = q.ceo ++ forwarded new_id i ∷ [];
      }
    ]

unfoldable pub resolve_director_found :
    ℕ → String → DirectorRequest → Option DirectorQueueItem → Queues → Queues × RouteReply
resolve_director_found now new_id r none q = (q, not_found)
resolve_director_found now new_id r (some i) q =
    if is_closed_director i.status then (q, conflict) else (settle_director now new_id r i q, ok)

unfoldable pub resolve_director_queue_item :
    ℕ → String → String → DirectorRequest → Queues → Queues × RouteReply
unfolding resolve_director_found
resolve_director_queue_item now new_id id r q =
    resolve_director_found now new_id r (find_director id q.director) q

-- The row that escalate_to_ceo adds; the title is cut by `cut`, `message[:255]`.
abbrev pub escalated :
    (String → String) → String → CeoItemType → EscalationPriority → String → CeoQueueItem
escalated cut new_id item_type priority message = record {
  id = new_id;
  type = item_type;
  priority = priority;
  status = CeoQueueStatus.pending;
  title = cut message;
  source_project_id = none;
  source_agent = some "director";
  forwarded_from = none;
  resolved_at = none;
  resolved_by = none;
  resolution = none;
}

-- The tool escalate_to_ceo, for metadata that parses.
unfoldable pub escalate_to_ceo :
    (String → String) → String → CeoItemType → EscalationPriority → String → Queues → Queues
escalate_to_ceo cut new_id item_type priority message q = record q {
  ceo = q.ceo ++ escalated cut new_id item_type priority message ∷ [];
}

-- The tool escalate_to_director; the project is the session's `pm:project_id`, where it is a UUID.
unfoldable pub escalate_to_director :
    (String → String)
    → String
    → Option String
    → EscalationPriority
    → EscalationRequestType
    → String
    → Queues
    → Queues
escalate_to_director cut new_id project priority request_type context q = record q {
  director =
      q.director
      ++ record {
        id = new_id;
        type = request_type;
        priority = priority;
        status = DirectorQueueStatus.pending;
        title = cut context;
        source_project_id = project;
        source_agent = some "pm";
        context = context;
        resolved_at = none;
        resolved_by = none;
        resolution = none;
      }
        ∷ [];
}
