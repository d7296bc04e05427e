-- ===== src/Lifecycle/Audit/Bulks.antt =====
-- The operations on all projects and on the Director are audited.
use auto_builder.Base.{
  String, Option, none, some, Bool, true, false, List, [], ◌∷◌, ◌++◌, ◌≡◌, refl, select, elem,
  arith, eq_iff, ◌∙◌,
}
use mathlib.Core.List.{append_assoc}
use auto_builder.Model.{ProjectStatus, active, paused, World, Event, director_paused}
use auto_builder.Model.Rows.{Project}
use auto_builder.Lifecycle.Bulk.{
  ids_of, restatus, status_events, is_active, is_paused, pause_all_projects, resume_all_projects,
}
use auto_builder.Lifecycle.Director.{is_cascaded, pause_director, resume_director}
use auto_builder.Lifecycle.Audit.Rows.{ids_of-restatus}
use auto_builder.Lifecycle.Audit.{
  can_become, Tracked, at, status_in, replay, follow, IsAudited, IsKeyed,
}

pub replay-append :
    (pid : String) (es fs : List Event) (t : Tracked)
    → replay pid (es ++ fs) t ≡ replay pid fs (replay pid es t)
unfolding replay
replay-append pid [] fs t = refl
replay-append pid (e ∷ es) fs t = replay-append pid es fs (follow pid e t)

module _ (sel : Project → Bool) (s : ProjectStatus) (actor scope : String) where
  -- A project with no row has no event.
  replay-status_events_absent :
      (pid : String) (ps : List Project) (o : Option ProjectStatus)
      → elem pid (ids_of ps) ≡ false
      → replay pid (status_events sel s actor scope ps) (at o) ≡ at o
  unfolding replay status_events elem
  replay-status_events_absent pid [] o h = refl
  replay-status_events_absent pid (p ∷ ps) o h =
      ground (arith, replay-status_events_absent pid ps o)

  status_in-restatus_absent :
      (pid : String) (ps : List Project)
      → elem pid (ids_of ps) ≡ false
      → (status_in pid ps ≡ none) × (status_in pid (restatus sel s ps) ≡ none)
  unfolding status_in restatus elem
  status_in-restatus_absent pid [] h = (refl, refl)
  status_in-restatus_absent pid (p ∷ ps) h = ground (arith, status_in-restatus_absent pid ps)

  -- The events of one pass over the table take each project to its new status.
  replay-status_events :
      (allowed : (p : Project) → sel p ≡ true → can_become p.status s ≡ true) (pid : String)
      (ps : List Project)
      → IsKeyed ps
      → replay pid (status_events sel s actor scope ps) (at (status_in pid ps))
        ≡ at (status_in pid (restatus sel s ps))
  unfolding replay status_events status_in restatus
  replay-status_events allowed pid [] k = refl
  replay-status_events allowed pid (p ∷ ps) k = ground (
    arith,
    replay-status_events allowed pid ps k.1,
    eq_iff p.id pid,
    allowed p,
    replay-status_events_absent p.id ps (some p.status),
    replay-status_events_absent p.id ps (some s),
    status_in-restatus_absent p.id ps,
  )

  module _ (w w' : World) (last : Event) (k : IsKeyed w.projects)
      (allowed : (p : Project) → sel p ≡ true → can_become p.status s ≡ true)
      (quiet : (pid : String) (t : Tracked) → follow pid last t ≡ t)
      (rows : w'.projects ≡ restatus sel s w.projects)
      (stream : w'.events
        ≡ (w.events ++ status_events sel s actor scope w.projects) ++ last ∷ []) where
    pub IsAudited-pass : IsAudited w w'
    unfolding replay
    IsAudited-pass = record {
      published = status_events sel s actor scope w.projects ++ last ∷ [];
      extends = stream ∙ append_assoc w.events _ _;
      same_ids = rw rows (ids_of-restatus sel s w.projects);
      explains =
          λ pid. rw (replay-append, rows, quiet) (replay-status_events allowed pid w.projects k);
    }

module _ (w : World) (k : IsKeyed w.projects) where
  pub pause_all_projects-IsAudited :
      (reason : Option String) → IsAudited w (pause_all_projects reason w).0
  unfolding pause_all_projects
  pause_all_projects-IsAudited reason =
      IsAudited-pass is_active paused "system" "system" w _ _ k (λ p h. ground arith)
        (λ pid t. ground arith) refl refl

  pub resume_all_projects-IsAudited : IsAudited w (resume_all_projects w).0
  unfolding resume_all_projects
  resume_all_projects-IsAudited =
      IsAudited-pass is_paused active "system" "system" w _ _ k (λ p h. ground arith)
        (λ pid t. ground arith) refl refl

  pub resume_director-IsAudited : IsAudited w (resume_director w).0
  unfolding resume_director is_cascaded
  resume_director-IsAudited =
      IsAudited-pass (is_cascaded w.pause_flags) active "director" "system" w _ _ k
        (λ p h. ground arith) (λ pid t. ground arith) refl refl

pub pause_director-IsAudited :
    (reason : Option String) (w : World) → IsAudited w (pause_director reason w).0
unfolding pause_director replay
pause_director-IsAudited reason w = record {
  published = director_paused reason (ids_of (select is_active w.projects)) ∷ [];
  extends = refl;
  same_ids = refl;
  explains = λ pid. refl;
}
