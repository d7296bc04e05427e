-- ===== src/Queues/Forwarding.antt =====
-- From the Director's queue to the CEO's, and back to the project.
use auto_builder.Base.{
  ℕ, String, Option, none, some, false, List, [], ◌∷◌, ◌++◌, ◌≡◌, refl, arith, eq_iff, or_default,
}
use mathlib.Core.List.{append-nil}
use auto_builder.Model.Rows.{CeoQueueItem, DirectorQueueItem, CeoItemType, EscalationPriority}
use auto_builder.Queues.{
  Queues, RouteReply, apply_resolution, CeoRequest, CeoQueueAction, DirectorQueueAction,
  is_closed_director, find_ceo, find_director, forwarded, resolve_ceo_queue_item,
  resolve_director_queue_item, escalate_to_ceo, escalated, jobs_of,
}

find_ceo-append_new :
    (items : List CeoQueueItem) (i : CeoQueueItem)
    → find_ceo i.id items ≡ none
    → find_ceo i.id (items ++ i ∷ []) ≡ some i
unfolding find_ceo
find_ceo-append_new [] i h = ground (arith, eq_iff i.id i.id)
find_ceo-append_new (x ∷ items) i h = ground (arith, find_ceo-append_new items i)

abbrev pub resolving : Option String → String → CeoRequest
resolving text resolver = record {
  action = CeoQueueAction.resolve;
  resolution = text;
  resolver = resolver;
}

-- An open item of the Director's queue with a source project is forwarded, under an id that is new,
-- and the CEO resolves what it became: exactly one job is enqueued, which applies the resolution to
-- that project.
forward-resolve :
    (now later : ℕ) (new_id id p resolver : String) (text rationale : Option String)
    (i : DirectorQueueItem) (q : Queues)
    → find_director id q.director ≡ some i
    → is_closed_director i.status ≡ false
    → i.source_project_id ≡ some p
    → find_ceo new_id q.ceo ≡ none
    → let q₁ =
        (resolve_director_queue_item now new_id id
          (record { action = DirectorQueueAction.forward_to_ceo; resolution = rationale })
          q).0 in
      (resolve_ceo_queue_item later new_id (resolving text resolver) q₁).0.jobs
      ≡ q.jobs ++ apply_resolution p (or_default text "") ∷ []
unfolding resolve_director_queue_item resolve_ceo_queue_item
forward-resolve now later new_id id p resolver text rationale i q found opened source fresh =
    rw (found, opened, find_ceo-append_new q.ceo (forwarded new_id i) fresh, source) refl

-- What the Director puts on the CEO's queue by its tool names no project: resolving it, an approval
-- or an escalation too, enqueues no job.
escalate_to_ceo-resolve :
    (later : ℕ) (cut : String → String) (new_id message resolver : String) (text : Option String)
    (item_type : CeoItemType) (priority : EscalationPriority) (q : Queues)
    → find_ceo new_id q.ceo ≡ none
    → let q₁ = escalate_to_ceo cut new_id item_type priority message q in
      ((resolve_ceo_queue_item later new_id (resolving text resolver) q₁).1 ≡ RouteReply.ok)
      × ((resolve_ceo_queue_item later new_id (resolving text resolver) q₁).0.jobs ≡ q.jobs)
unfolding resolve_ceo_queue_item escalate_to_ceo
escalate_to_ceo-resolve later cut new_id message resolver text item_type priority q fresh =
    rw (find_ceo-append_new q.ceo (escalated cut new_id item_type priority message) fresh)
      (refl, no_job item_type)
  where
    no_job :
        (t : CeoItemType)
        → q.jobs ++ jobs_of (resolving text resolver) (escalated cut new_id t priority message)
          ≡ q.jobs
    no_job CeoItemType.notification = append-nil q.jobs
    no_job CeoItemType.approval = append-nil q.jobs
    no_job CeoItemType.escalation = append-nil q.jobs
    no_job CeoItemType.task = append-nil q.jobs
