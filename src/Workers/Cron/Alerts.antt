-- ===== src/Workers/Cron/Alerts.antt =====
-- Of which patterns the CEO is told, and that a second run tells nothing new.
use auto_builder.Base.{
  ℕ, Bool, true, false, List, [], ◌∷◌, ◌++◌, ◌≡◌, refl, ap, sym, ◌∙◌, inl, inr, ◌≤◌, any, leb,
  length, distinct, All, Any, subst, arith, Bool-cases, ◌||◌,
}
use auto_builder.Model.Rows.{
  DirectorQueueItem, CeoQueueItem, EscalationRequestType, escalation, status_report,
  resource_request, pattern_alert,
}
use auto_builder.Workflows.Manifest.{codes}
use auto_builder.Sessions.State.{codes-append}
use auto_builder.Workers.Cron.{
  Clock, Desk, Pattern, is_counted, projects_of, all_types, detect, detect_cross_project_patterns,
  like_prefix, alert_prefix, is_alert, alert_of, create_pattern_alert, create_alerts,
  process_director_queue,
}

like_prefix-append : (ps cs : List ℕ) → like_prefix ps (ps ++ cs) ≡ true
unfolding like_prefix
like_prefix-append [] cs = refl
like_prefix-append (p ∷ ps) cs = ground (arith, like_prefix-append ps cs)

alert_of-is_alert : (clock : Clock) (p : Pattern) → is_alert p.type (alert_of clock p) ≡ true
unfolding is_alert
alert_of-is_alert clock p =
    rw (codes-append (alert_prefix p.type) _) (like_prefix-append (codes (alert_prefix p.type)) _)

abbrev pub HasAlert : List CeoQueueItem → EscalationRequestType → Type 0
HasAlert ceo type = any (is_alert type) ceo ≡ true

any-append :
    (p : CeoQueueItem → Bool) (xs ys : List CeoQueueItem)
    → any p (xs ++ ys) ≡ (any p xs || any p ys)
unfolding any
any-append p [] ys = refl
any-append p (x ∷ xs) ys = ground (arith, any-append p xs ys)

module _ (clock : Clock) where
  create_pattern_alert-HasAlert :
      (p : Pattern) (ceo : List CeoQueueItem) → HasAlert (create_pattern_alert clock p ceo) p.type
  unfolding create_pattern_alert any
  create_pattern_alert-HasAlert p ceo = elim (Bool-cases (any (is_alert p.type) ceo)) [
    | inl e ↦ rw e e
    | inr e ↦
        rw
          (
            e,
            any-append (is_alert p.type) ceo (alert_of clock p ∷ []),
            e,
            alert_of-is_alert clock p,
          )
          refl
  ]

  create_pattern_alert-keeps :
      (p : Pattern) (ceo : List CeoQueueItem) (type : EscalationRequestType)
      → HasAlert ceo type
      → HasAlert (create_pattern_alert clock p ceo) type
  unfolding create_pattern_alert
  create_pattern_alert-keeps p ceo type h = elim (Bool-cases (any (is_alert p.type) ceo)) [
    | inl e ↦ rw e h
    | inr e ↦ rw (e, any-append (is_alert type) ceo (alert_of clock p ∷ []), h) refl
  ]

  create_alerts-keeps :
      (ps : List Pattern) (ceo : List CeoQueueItem) (type : EscalationRequestType)
      → HasAlert ceo type
      → HasAlert (create_alerts clock ps ceo) type
  unfolding create_alerts
  create_alerts-keeps [] ceo type h = h
  create_alerts-keeps (p ∷ ps) ceo type h =
      create_alerts-keeps ps _ type (create_pattern_alert-keeps p ceo type h)

  create_alerts-HasAlert :
      (ps : List Pattern) (ceo : List CeoQueueItem)
      → All (λ (p : Pattern). HasAlert (create_alerts clock ps ceo) p.type) ps
  unfolding create_alerts
  create_alerts-HasAlert [] ceo = tt
  create_alerts-HasAlert (p ∷ ps) ceo = (
    create_alerts-keeps ps _ p.type (create_pattern_alert-HasAlert p ceo),
    create_alerts-HasAlert ps _,
  )

  create_alerts-same :
      (ps : List Pattern) (ceo : List CeoQueueItem)
      → All (λ (p : Pattern). HasAlert ceo p.type) ps
      → create_alerts clock ps ceo ≡ ceo
  unfolding create_alerts create_pattern_alert
  create_alerts-same [] ceo h = refl
  create_alerts-same (p ∷ ps) ceo h = rw h.0 (create_alerts-same ps ceo h.1)

  detect-type :
      (types : List EscalationRequestType) (items : List DirectorQueueItem)
      (type : EscalationRequestType)
      → Any (λ t. t ≡ type) types
      → 2 ≤ length (distinct (projects_of (is_counted clock type) items))
      → Any (λ (p : Pattern). p.type ≡ type) (detect clock types items)
  unfolding detect
  detect-type [] items type h many = absurd h
  detect-type (t ∷ types) items type (inl here) many =
      let enough : leb 2 (length (distinct (projects_of (is_counted clock t) items))) ≡ true =
        rw here (ground arith) in
      rw enough (inl here)
  detect-type (t ∷ types) items type (inr there) many =
      let rest = detect-type types items type there many in
      elim (Bool-cases (leb 2 (length (distinct (projects_of (is_counted clock t) items))))) [
        | inl e ↦ rw e (inr rest)
        | inr e ↦ rw e rest
      ]

every_type : (type : EscalationRequestType) → Any (λ t. t ≡ type) all_types
every_type escalation = inl refl
every_type status_report = inr (inl refl)
every_type resource_request = inr (inr (inl refl))
every_type pattern_alert = inr (inr (inr (inl refl)))

alert_at :
    (ceo : List CeoQueueItem) (type : EscalationRequestType) (ps : List Pattern)
    → All (λ (p : Pattern). HasAlert ceo p.type) ps
    → Any (λ (p : Pattern). p.type ≡ type) ps
    → HasAlert ceo type
alert_at ceo type [] h k = absurd k
alert_at ceo type (p ∷ ps) h (inl here) = subst (HasAlert ceo) here h.0
alert_at ceo type (p ∷ ps) h (inr there) = alert_at ceo type ps h.1 there

ceo-process :
    (clock : Clock) (d : Desk)
    → d.is_paused ≡ false
    → (process_director_queue clock d).ceo
      ≡ create_alerts clock (detect_cross_project_patterns clock d.director) d.ceo
unfolding process_director_queue
ceo-process clock d h = rw h refl

kept-process :
    (clock : Clock) (d : Desk)
    → ((process_director_queue clock d).director ≡ d.director)
      × ((process_director_queue clock d).is_paused ≡ d.is_paused)
unfolding process_director_queue
kept-process clock d = elim (Bool-cases d.is_paused) [
  | inl e ↦ rw e (refl, refl)
  | inr e ↦ rw e (refl, refl)
]

-- Where the Director is not paused, each type of escalation that two projects or more have pending
-- within the window has an open alert at the CEO after the run; and a second run on the result adds no
-- item to the CEO's queue.
pub process_director_queue-alerts :
    (clock : Clock) (d : Desk)
    → d.is_paused ≡ false
    → ((type : EscalationRequestType)
        → 2 ≤ length (distinct (projects_of (is_counted clock type) d.director))
        → HasAlert (process_director_queue clock d).ceo type)
      × ((process_director_queue clock (process_director_queue clock d)).ceo
          ≡ (process_director_queue clock d).ceo)
process_director_queue-alerts clock d h =
    let patterns = detect_cross_project_patterns clock d.director in
    let alerted = create_alerts-HasAlert clock patterns d.ceo in
    let once = ceo-process clock d h in
    let kept = kept-process clock d in
    (
      λ type many.
          subst (λ ceo. HasAlert ceo type) (sym once)
            (alert_at (create_alerts clock patterns d.ceo) type patterns alerted
              (detect-type clock all_types d.director type (every_type type) many)),
      ceo-process clock (process_director_queue clock d) (kept.1 ∙ h)
          ∙ (ap
                (λ items.
                  create_alerts clock (detect_cross_project_patterns clock items)
                    (process_director_queue clock d).ceo)
                kept.0
              ∙ create_alerts-same clock patterns (process_director_queue clock d).ceo (
                  subst (λ ceo. All (λ (p : Pattern). HasAlert ceo p.type) patterns) (sym once)
                    alerted)),
    )
