-- ===== src/Lifecycle/Audit/Singles.antt =====
-- The operations on one project are audited, and keep the primary key.
use auto_builder.Base.{
  ℕ, String, Option, none, some, true, [], ◌∷◌, ◌++◌, ◌≡◌, refl, arith, eq_iff, Bool-cases, inl,
  inr,
}
use mathlib.Core.List.{append-nil}
use auto_builder.Model.{
  ProjectStatus, active, paused, suspended, aborted, is_terminal_project, World,
  project_status_changed, find_project, update_rows, same_project_status,
}
use auto_builder.Model.Rows.{Project}
use auto_builder.Lifecycle.Single.{
  pause_project, resume_project, abort_project, suspend_project, apply_resolution_to_project,
  pause_found, resume_found, abort_found, suspend_found, resolution_found,
}
use auto_builder.Lifecycle.Audit.{can_become, replay, IsAudited}
use auto_builder.Lifecycle.Audit.Rows.{
  find_project-status, status_in-update_rows, ids_of-update_rows,
}

-- An operation that leaves the table and the stream alone.
pub IsAudited-same :
    (w w' : World) → w'.projects ≡ w.projects → w'.events ≡ w.events → IsAudited w w'
unfolding replay
IsAudited-same w w' p e = record {
  published = [];
  extends = rw (append-nil w.events) e;
  same_ids = rw p;
  explains = λ pid. rw p;
}

-- An operation that gives the row `p` the status `s`, and publishes that.
module _ (pid : String) (w w' : World) (f : Project → Project) (s : ProjectStatus) (p : Project)
    (actor scope workflow_type : Option String) (here : find_project pid w ≡ some p)
    (keeps : (r : Project) → (f r).id ≡ r.id) (sets : (r : Project) → (f r).status ≡ s)
    (allowed : can_become p.status s ≡ true) (rows : w'.projects ≡ update_rows p.id f w.projects)
    (stream : w'.events
      ≡ w.events ++ project_status_changed p.id p.status s actor scope workflow_type ∷ []) where
  pub IsAudited-update : IsAudited w w'
  unfolding replay
  IsAudited-update = record {
    published = project_status_changed p.id p.status s actor scope workflow_type ∷ [];
    extends = stream;
    same_ids = rw rows (ids_of-update_rows f keeps p.id w.projects);
    explains = λ j.
        rw (rows, status_in-update_rows f keeps s sets p.id j w.projects)
          (ground (arith, eq_iff p.id j, find_project-status pid w here));
  }

module _ (pid : String) (w : World) where
  pause_found-IsAudited :
      (reason : Option String) (o : Option Project)
      → find_project pid w ≡ o
      → IsAudited w (pause_found reason o w).0
  unfolding pause_found
  pause_found-IsAudited reason none here = IsAudited-same w w refl refl
  pause_found-IsAudited reason (some p) here =
      elim (Bool-cases (same_project_status p.status active)) [
        | inl e ↦ rw e (
            IsAudited-update pid w _ _ paused p _ _ _ here (λ _. refl) (λ _. refl) (ground arith)
              refl refl)
        | inr e ↦ rw e (IsAudited-same w w refl refl)
      ]

  resume_found-IsAudited :
      (resolution : Option String) (o : Option Project)
      → find_project pid w ≡ o
      → IsAudited w (resume_found resolution o w).0
  unfolding resume_found
  resume_found-IsAudited resolution none here = IsAudited-same w w refl refl
  resume_found-IsAudited resolution (some p) here =
      elim (Bool-cases (same_project_status p.status paused)) [
        | inl e ↦ rw e (
            IsAudited-update pid w _ _ active p _ _ _ here (λ _. refl) (λ _. refl) (ground arith)
              refl refl)
        | inr e ↦ rw e (IsAudited-same w w refl refl)
      ]

  abort_found-IsAudited :
      (now : ℕ) (reason : String) (o : Option Project)
      → find_project pid w ≡ o
      → IsAudited w (abort_found now reason o w).0
  unfolding abort_found
  abort_found-IsAudited now reason none here = IsAudited-same w w refl refl
  abort_found-IsAudited now reason (some p) here =
      elim (Bool-cases (is_terminal_project p.status)) [
        | inl e ↦ rw e (IsAudited-same w w refl refl)
        | inr e ↦ rw e (
            IsAudited-update pid w _ _ aborted p _ _ _ here (λ _. refl) (λ _. refl) (ground arith)
              refl refl)
      ]

  suspend_found-IsAudited :
      (now : ℕ) (reason : String) (o : Option Project)
      → find_project pid w ≡ o
      → IsAudited w (suspend_found now reason true o w)
  unfolding suspend_found
  suspend_found-IsAudited now reason none here = IsAudited-same w w refl refl
  suspend_found-IsAudited now reason (some p) here =
      elim (Bool-cases (is_terminal_project p.status)) [
        | inl e ↦ rw e (IsAudited-same w w refl refl)
        | inr e ↦ rw e (
            IsAudited-update pid w _ _ suspended p _ _ _ here (λ _. refl) (λ _. refl) (ground arith)
              refl refl)
      ]

  resolution_found-IsAudited :
      (o : Option Project) → find_project pid w ≡ o → IsAudited w (resolution_found o w).0
  unfolding resolution_found
  resolution_found-IsAudited none here = IsAudited-same w w refl refl
  resolution_found-IsAudited (some p) here =
      elim (Bool-cases (same_project_status p.status suspended)) [
        | inl e ↦ rw e (
            IsAudited-update pid w _ _ active p _ _ _ here (λ _. refl) (λ _. refl) (ground arith)
              refl refl)
        | inr e ↦ rw e (IsAudited-same w _ refl refl)
      ]

  pub pause_project-IsAudited :
      (reason : Option String) → IsAudited w (pause_project pid reason w).0
  unfolding pause_project
  pause_project-IsAudited reason = pause_found-IsAudited reason _ refl

  pub resume_project-IsAudited :
      (resolution : Option String) → IsAudited w (resume_project pid resolution w).0
  unfolding resume_project
  resume_project-IsAudited resolution = resume_found-IsAudited resolution _ refl

  pub abort_project-IsAudited :
      (now : ℕ) (reason : String) → IsAudited w (abort_project now pid reason w).0
  unfolding abort_project
  abort_project-IsAudited now reason = abort_found-IsAudited now reason _ refl

  pub suspend_project-IsAudited :
      (now : ℕ) (reason : String) → IsAudited w (suspend_project now pid reason true w)
  unfolding suspend_project
  suspend_project-IsAudited now reason = suspend_found-IsAudited now reason _ refl

  pub apply_resolution_to_project-IsAudited :
      (resolution : String) → IsAudited w (apply_resolution_to_project pid resolution w).0
  unfolding apply_resolution_to_project
  apply_resolution_to_project-IsAudited resolution = resolution_found-IsAudited _ refl
