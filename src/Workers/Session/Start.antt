-- ===== src/Workers/Session/Start.antt =====
-- The start of a work session and the project's status.

use auto_builder.Base.{Option, none, some, true, false, ◌≡◌, refl, ap, inl, inr, arith, Bool-cases}
use auto_builder.Model.{ProjectStatus, shaping, active, same_project_status, World, find_project}
use auto_builder.Model.Rows.{Project}
use auto_builder.Lifecycle.Audit.{IsAudited}
use auto_builder.Lifecycle.Audit.Rows.{find_project-status}
use auto_builder.Lifecycle.Audit.Singles.{IsAudited-same, IsAudited-update}
use auto_builder.Workers.State.{Engine}
use auto_builder.Workers.Session.{Attempt, activate_found, activate}

is_shaping : (s : ProjectStatus) → same_project_status s shaping ≡ true → s ≡ shaping
is_shaping s h = ground arith

module _ (a : Attempt) (w : World) where
  activate_found-IsAudited :
      (o : Option Project) → find_project a.project_id w ≡ o → IsAudited w (activate_found a o w)
  unfolding activate_found
  activate_found-IsAudited none here = IsAudited-same w w refl refl
  activate_found-IsAudited (some p) here =
      elim (Bool-cases (same_project_status p.status shaping)) [
        | inl e ↦
            let was = is_shaping p.status e in
            let facts = find_project-status a.project_id w here in
            rw e (
              IsAudited-update a.project_id w _
                (λ q. record q { status = active; started_at = some a.run.now }) active p none none
                none here (λ _. refl) (λ _. refl) (rw was refl) refl (rw (facts.0, was) refl))
        | inr e ↦ rw e (IsAudited-same w w refl refl)
      ]

  activate_found-same :
      (p : Project) → same_project_status p.status shaping ≡ false → activate_found a (some p) w ≡ w
  unfolding activate_found
  activate_found-same p e = rw e refl

-- Where a job names a project by its canonical id, the start of the session publishes each change that it
-- makes to a project's status, as a step of the diagram; a project with another status than SHAPING, and
-- all other data, it leaves alone.
activate-IsAudited :
    (a : Attempt) (e : Engine)
    → a.project_uuid ≡ some a.project_id
    → IsAudited e.world (activate a e).world
      × ((p : Project)
          → find_project a.project_id e.world ≡ some p
          → same_project_status p.status shaping ≡ false
          → activate a e ≡ e)
unfolding activate
activate-IsAudited a e canonical = rw canonical (
  activate_found-IsAudited a e.world (find_project a.project_id e.world) refl,
  λ p here other.
      rw here (ap (λ w. record e { world = w }) (activate_found-same a e.world p other)),
)
