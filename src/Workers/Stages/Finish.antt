-- ===== src/Workers/Stages/Finish.antt =====
-- How the stage loop of workers/tasks.py ends a project: whatever the project's status was.
use auto_builder.Base.{
  Option, none, some, true, false, [], ◌∷◌, ◌++◌, ◌≡◌, refl, sym, ◌↔◌, inl, inr, ◌==◌, arith,
  eq_iff, Bool-cases,
}
use mathlib.Core.List.{append_cancel_left}
use auto_builder.Model.{
  ProjectStatus, completed, World, Event, project_status_changed, find_project,
}
use auto_builder.Model.Rows.{Project}
use auto_builder.Lifecycle.Audit.{can_become, at, replay, IsAudited}
use auto_builder.Lifecycle.Audit.Rows.{find_project-status}
use auto_builder.Lifecycle.Audit.Singles.{IsAudited-update}
use auto_builder.Workers.State.{Run}
use auto_builder.Workers.Stages.{complete_project}

-- The event that ends the project.
abbrev ending : Run → Project → Event
ending r p = project_status_changed r.project_id p.status completed none none none

replay-ending :
    (r : Run) (p : Project) (s : Option ProjectStatus)
    → can_become p.status completed ≡ false
    → replay r.project_id (ending r p ∷ []) (at (some p.status)) ≡ at s
    → ⊥
unfolding replay
replay-ending r p s never h =
    let here : (r.project_id == r.project_id) ≡ true = (eq_iff _ _).1 refl in
    let bad = rw (here, never) at h in ground (arith, bad)

-- To complete a project that has a row is in order exactly if its status may become completed; of a
-- paused, suspended or finished project it is not.
pub complete_project-IsAudited :
    (r : Run) (w : World) (p : Project)
    → find_project r.project_id w ≡ some p
    → IsAudited w (complete_project r w) ↔ (can_become p.status completed ≡ true)
unfolding complete_project
complete_project-IsAudited r w p here =
    let facts = find_project-status r.project_id w here in
    (
      λ a. elim (Bool-cases (can_become p.status completed)) [
        | inl e ↦ e
        | inr e ↦
            let ends : w.events ++ ending r p ∷ [] ≡ w.events ++ a.published =
              rw here at a.extends in
            let all : a.published ≡ ending r p ∷ [] = sym (append_cancel_left w.events _ _ ends) in
            absurd (replay-ending r p _ e (rw (all, facts.1) at (a.explains r.project_id)))
      ],
      λ can.
          IsAudited-update r.project_id w (complete_project r w)
            (λ q. record q { status = completed; completed_at = some r.now }) completed p none none
            none here (λ _. refl) (λ _. refl) can (rw facts.0 refl) (rw (here, facts.0) refl),
    )
