-- ===== src/Workers/Cron.antt =====
-- process_director_queue of workers/tasks.py, with _detect_cross_project_patterns and
-- _create_pattern_alert. The database returns groups in an order of its own: here types come in the
-- order of their declaration, and projects by their last item.
pub mod Turns
pub mod Alerts
use Prim.Native.String
use auto_builder.Base.{
  ℕ, String, Option, none, some, Bool, true, false, List, [], ◌∷◌, ◌++◌, not, any, select, ◌&&◌,
  ◌||◌, nat_eq, leb, if◌then◌else◌, elem, length, distinct,
}
use auto_builder.Model.Rows.{
  DirectorQueueItem, CeoQueueItem, EscalationPriority, EscalationRequestType, escalation,
  status_report, resource_request, pattern_alert, CeoItemType, notification, DirectorQueueStatus,
  CeoQueueStatus,
}
use auto_builder.Workflows.Manifest.{codes}

-- What the job reads and writes: the Director's pause flag, the two queues, the projects with a key
-- `director:work_session:{id}`, and the projects of the `run_director_turn` jobs.
pub record Desk : Type 0 where
  pub is_paused : Bool
  pub director : List DirectorQueueItem
  pub ceo : List CeoQueueItem
  pub sessions : List String
  pub turns : List String

-- `is_recent` tells whether an item was created within the window, `show` is the text of a count, and
-- `fresh` names a new item by its type.
pub record Clock : Type 0 where
  pub is_recent : DirectorQueueItem → Bool
  pub show : ℕ → String
  pub fresh : EscalationRequestType → String

abbrev pub type_text : EscalationRequestType → String
type_text escalation = "ESCALATION"
type_text status_report = "STATUS_REPORT"
type_text resource_request = "RESOURCE_REQUEST"
type_text pattern_alert = "PATTERN_ALERT"

unfoldable pub same_type : EscalationRequestType → EscalationRequestType → Bool
same_type escalation escalation = true
same_type status_report status_report = true
same_type resource_request resource_request = true
same_type pattern_alert pattern_alert = true
same_type _ _ = false

abbrev pub all_types : List EscalationRequestType
all_types = escalation ∷ status_report ∷ resource_request ∷ pattern_alert ∷ []

abbrev pub is_pending : DirectorQueueItem → Bool
is_pending i = elim i.status [ DirectorQueueStatus.pending ↦ true | _ ↦ false ]

abbrev pub with_project : Option String → Bool → List String → List String
with_project none passes rest = rest
with_project (some pid) passes rest = if passes then pid ∷ rest else rest

-- The projects of the items that pass the test, with no project left out.
unfoldable pub projects_of : (DirectorQueueItem → Bool) → List DirectorQueueItem → List String
projects_of p [] = []
projects_of p (i ∷ items) = with_project i.source_project_id (p i) (projects_of p items)

pub record Pattern : Type 0 where
  pub type : EscalationRequestType
  pub project_ids : List String

module _ (clock : Clock) where
  abbrev pub is_counted : EscalationRequestType → DirectorQueueItem → Bool
  is_counted type i = is_pending i && (clock.is_recent i && same_type i.type type)

  -- At least two projects.
  unfoldable pub detect : List EscalationRequestType → List DirectorQueueItem → List Pattern
  unfolding projects_of distinct same_type
  detect [] items = []
  detect (type ∷ types) items =
      let rest = detect types items in
      let ids = distinct (projects_of (is_counted type) items) in
      if leb 2 (length ids) then record { type = type; project_ids = ids } ∷ rest else rest

  abbrev pub detect_cross_project_patterns : List DirectorQueueItem → List Pattern
  detect_cross_project_patterns = detect all_types

-- SQL's `LIKE` with the pattern and a last `%`: `_` stands for any character.
unfoldable pub like_prefix : List ℕ → List ℕ → Bool
like_prefix [] cs = true
like_prefix (p ∷ ps) [] = false
like_prefix (p ∷ ps) (c ∷ cs) = (nat_eq p b'_' || nat_eq p c) && like_prefix ps cs

abbrev pub alert_prefix : EscalationRequestType → String
alert_prefix type = String.◌++◌ "Cross-project pattern: " (type_text type)

abbrev pub is_open_notification : CeoQueueItem → Bool
is_open_notification i =
    elim i.type [ CeoItemType.notification ↦ true | _ ↦ false ]
    && elim i.status [ CeoQueueStatus.pending ↦ true | _ ↦ false ]

unfoldable pub is_alert : EscalationRequestType → CeoQueueItem → Bool
unfolding like_prefix
is_alert type i = is_open_notification i && like_prefix (codes (alert_prefix type)) (codes i.title)

module _ (clock : Clock) where
  abbrev pub alert_of : Pattern → CeoQueueItem
  alert_of p = record {
    id = clock.fresh p.type;
    type = CeoItemType.notification;
    priority = EscalationPriority.high;
    status = CeoQueueStatus.pending;
    title =
        String.◌++◌ (alert_prefix p.type)
          (String.◌++◌ " (" (String.◌++◌ (clock.show (length p.project_ids)) " projects)"));
    source_project_id = none;
    source_agent = some "director";
    forwarded_from = none;
    resolved_at = none;
    resolved_by = none;
    resolution = none;
  }

  unfoldable pub create_pattern_alert : Pattern → List CeoQueueItem → List CeoQueueItem
  unfolding is_alert any
  create_pattern_alert p ceo = if any (is_alert p.type) ceo then ceo else ceo ++ alert_of p ∷ []

  unfoldable pub create_alerts : List Pattern → List CeoQueueItem → List CeoQueueItem
  unfolding create_pattern_alert
  create_alerts [] ceo = ceo
  create_alerts (p ∷ ps) ceo = create_alerts ps (create_pattern_alert p ceo)

  unfoldable pub process_director_queue : Desk → Desk
  unfolding detect create_alerts projects_of distinct elem select
  process_director_queue d = if d.is_paused then d else record d {
    ceo = create_alerts (detect_cross_project_patterns clock d.director) d.ceo;
    turns =
        d.turns
        ++ select (λ pid. not (elem pid d.sessions)) (distinct (projects_of is_pending d.director));
  }
