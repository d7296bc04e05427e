-- ===== src/Workers/Cron/Turns.antt =====
-- For which projects process_director_queue starts a turn of the Director, and of what it alerts.
use auto_builder.Base.{
  String, Option, none, some, Bool, true, false, List, [], ◌∷◌, ◌++◌, ◌≡◌, refl, ◌↔◌, ◌⊎◌, inl, inr,
  not, select, elem, distinct, elem-distinct, distinct-IsDistinct, IsDistinct, IsIn, IsIn-select,
  ap, sym, ◌∙◌, Any, elem_iff, arith,
}
use auto_builder.Model.Rows.{DirectorQueueItem}
use auto_builder.Agents.Resolver.Distinct.{select-IsDistinct}
use auto_builder.Workers.Cron.{
  Clock, Desk, is_pending, with_project, projects_of, process_director_queue,
}

-- Some item that passes the test is the project's.
abbrev pub HasItem : (DirectorQueueItem → Bool) → String → List DirectorQueueItem → Type 0
HasItem p pid = Any (λ (i : DirectorQueueItem). (p i ≡ true) × (i.source_project_id ≡ some pid))

with_project_iff :
    (o : Option String) (passes : Bool) (rest : List String) (pid : String)
    → IsIn pid (with_project o passes rest) ↔ (((passes ≡ true) × (o ≡ some pid)) ⊎ IsIn pid rest)
with_project_iff none passes rest pid = (λ h. inr h, λ h. elim h [ inl k ↦ cc (k.1) | inr k ↦ k ])
with_project_iff (some own) true rest pid = (
  λ h. elim h [ inl here ↦ inl (refl, ap some here) | inr k ↦ inr k ],
  λ h. elim h [ inl k ↦ inl (ground (arith, k.1)) | inr k ↦ inr k ],
)
with_project_iff (some own) false rest pid =
    (λ h. inr h, λ h. elim h [ inl k ↦ cc (k.0) | inr k ↦ k ])

pub projects_of_iff :
    (p : DirectorQueueItem → Bool) (items : List DirectorQueueItem) (pid : String)
    → IsIn pid (projects_of p items) ↔ HasItem p pid items
unfolding projects_of
projects_of_iff p [] pid = (λ h. h, λ h. h)
projects_of_iff p (i ∷ items) pid =
    let first = with_project_iff i.source_project_id (p i) (projects_of p items) pid in
    let rest = projects_of_iff p items pid in
    (
      λ h. elim (first.0 h) [ inl k ↦ inl k | inr k ↦ inr (rest.0 k) ],
      λ h. first.1 (elim h [ inl k ↦ inl k | inr k ↦ inr (rest.1 k) ]),
    )

-- The projects that a run starts turns for.
abbrev pub new_turns : Desk → List String
new_turns d =
    select (λ pid. not (elem pid d.sessions)) (distinct (projects_of is_pending d.director))

IsIn-new_turns :
    (d : Desk) (pid : String)
    → IsIn pid (new_turns d) ↔ (HasItem is_pending pid d.director × (elem pid d.sessions ≡ false))
IsIn-new_turns d pid =
    let all = projects_of is_pending d.director in
    let listed = projects_of_iff is_pending d.director pid in
    let chosen = IsIn-select (λ x. not (elem x d.sessions)) pid (distinct all) in
    (
      λ h.
          let k = chosen.0 h in
          let from =
            (elem_iff pid all).0
              (sym (elem-distinct pid all) ∙ (elem_iff pid (distinct all)).1 k.0) in
          (listed.0 from, not-true (elem pid d.sessions) k.1),
      λ h.
          let from = (elem_iff pid all).1 (listed.1 h.0) in
          chosen.1 ((elem_iff pid (distinct all)).0 (elem-distinct pid all ∙ from), rw h.1 refl),
    )
  where
    not-true : (b : Bool) → not b ≡ true → b ≡ false
    not-true true h = cc
    not-true false h = refl

-- A paused Director gets no turn. Otherwise the run adds one turn, and no more, for exactly the
-- projects that have a pending item and no work session; the Director's queue stays as it is.
pub process_director_queue-turns :
    (clock : Clock) (d : Desk)
    → let after = process_director_queue clock d in
      (d.is_paused ≡ true → after ≡ d)
      × (d.is_paused ≡ false
          → (added : List String) × (after.turns ≡ d.turns ++ added)
            × IsDistinct added
            × ((pid : String)
                → IsIn pid added
                  ↔ (HasItem is_pending pid d.director × (elem pid d.sessions ≡ false))))
      × (after.director ≡ d.director)
unfolding process_director_queue
process_director_queue-turns clock d = (
  λ h. rw h refl,
  λ h. rw h (
    new_turns d,
    refl,
    select-IsDistinct (λ pid. not (elem pid d.sessions))
        (distinct (projects_of is_pending d.director))
        (distinct-IsDistinct (projects_of is_pending d.director)),
    IsIn-new_turns d,
  ),
  ground arith,
)
