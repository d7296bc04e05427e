-- ===== src/Lifecycle/Stalls.antt =====
-- A Director's pause followed by its resume.
use auto_builder.Base.{
  String, Option, none, some, Bool, true, false, List, [], ◌∷◌, ◌≡◌, refl, select, arith, eq_iff,
  lookup, insert, delete, Dict, elem, lookup-insert, lookup-delete, ◌==◌, if◌then◌else◌, ◌&&◌,
  Bool-cases, inl, inr, All, All-zip,
}
use mathlib.Core.List.{append-nil}
use auto_builder.Model.{World, ProjectStatus, active}
use auto_builder.Model.Rows.{Project}
use auto_builder.Lifecycle.Bulk.{ids_of, restatus, set_flags, clear_flags, is_active}
use auto_builder.Lifecycle.Audit.{IsKeyed}
use auto_builder.Lifecycle.Director.{
  is_director_flag, is_cascaded, drop_stale, pause_director, resume_director,
}

-- Setting flags, read at one key.
pub lookup-set_flags :
    (ids : List String) (v k : String) (flags : Dict String)
    → lookup k (set_flags ids v flags) ≡ (if elem k ids then some v else lookup k flags)
unfolding set_flags elem
lookup-set_flags [] v k flags = refl
lookup-set_flags (i ∷ ids) v k flags =
    ground
      (arith, lookup-set_flags ids v k (insert i v flags), lookup-insert i k v flags, eq_iff i k)

-- Dropping the Director's flags, read at one key.
pub lookup-drop_stale :
    (ids : List String) (k : String) (flags : Dict String)
    → lookup k (drop_stale ids flags)
      ≡ (if elem k ids && is_director_flag (lookup k flags) then none else lookup k flags)
unfolding drop_stale elem
lookup-drop_stale [] k flags = refl
lookup-drop_stale (i ∷ ids) k flags = elim (Bool-cases (is_director_flag (lookup i flags))) [
  | inl e ↦ rw e (
      ground (arith, lookup-drop_stale ids k (delete i flags), lookup-delete i k flags, eq_iff i k))
  | inr e ↦ rw e (ground (arith, lookup-drop_stale ids k flags, eq_iff i k))
]

select-none :
    (sel : Project → Bool) (ps : List Project) → All (λ p. sel p ≡ false) ps → select sel ps ≡ []
unfolding select
select-none sel [] h = refl
select-none sel (p ∷ ps) h = ground (arith, select-none sel ps h.1, h.0)

restatus-none :
    (sel : Project → Bool) (s : ProjectStatus) (ps : List Project)
    → All (λ p. sel p ≡ false) ps
    → restatus sel s ps ≡ ps
unfolding restatus
restatus-none sel s [] h = refl
restatus-none sel s (p ∷ ps) h = ground (arith, restatus-none sel s ps h.1, h.0)

elem-select :
    (i : String) (sel : Project → Bool) (ps : List Project)
    → elem i (ids_of ps) ≡ false
    → elem i (ids_of (select sel ps)) ≡ false
unfolding elem select
elem-select i sel [] h = refl
elem-select i sel (p ∷ ps) h = ground (arith, elem-select i sel ps)

others :
    (i : String) (ps : List Project)
    → elem i (ids_of ps) ≡ false
    → All (λ q. (q.id == i) ≡ false) ps
unfolding elem
others i [] h = tt
others i (q ∷ ps) h = (ground arith, others i ps (ground arith))

abbrev IsAbsent : List Project → Project → Type 0
IsAbsent ps q = is_active q ≡ false → elem q.id (ids_of (select is_active ps)) ≡ false

-- Under a primary key the flags of the active projects are no other project's.
inactive-IsAbsent : (ps : List Project) → IsKeyed ps → All (IsAbsent ps) ps
unfolding elem select
inactive-IsAbsent [] k = tt
inactive-IsAbsent (p ∷ ps) k = (
  λ h. ground (arith, elem-select p.id is_active ps k.0),
  All-zip {P = IsAbsent ps} {Q = λ q. (q.id == p.id) ≡ false} {R = IsAbsent (p ∷ ps)} ps
      (λ q absent other i. ground (arith, absent i, eq_iff p.id q.id, eq_iff q.id p.id))
      (inactive-IsAbsent ps k.1) (others p.id ps k.0),
)

module _ (reason : Option String) (w : World) (k : IsKeyed w.projects)
    (clear : All (λ p. is_cascaded w.pause_flags p ≡ false) w.projects) where
  abbrev flagged : Dict String
  flagged = set_flags (ids_of (select is_active w.projects)) "director_pause" w.pause_flags

  still_clear : All (λ p. is_cascaded flagged p ≡ false) w.projects
  unfolding is_cascaded
  still_clear =
      All-zip {P = IsAbsent w.projects} {Q = λ p. is_cascaded w.pause_flags p ≡ false}
        {R = λ p. is_cascaded flagged p ≡ false} w.projects
        (λ p absent before. ground (
          arith,
          absent,
          lookup-set_flags (ids_of (select is_active w.projects)) "director_pause" p.id
              w.pause_flags,
        ))
        (inactive-IsAbsent w.projects k) clear

  -- Pausing the Director and then resuming it leaves the project table and the job queue as they
  -- were, and takes the pause flag off every active project: no work session is enqueued for the
  -- projects whose loops the flag has stopped. The ids are a primary key, and no paused project
  -- holds the Director's flag at the start.
  pub resume_director-pause_director :
      ((resume_director (pause_director reason w).0).0.projects ≡ w.projects)
      × ((resume_director (pause_director reason w).0).0.jobs ≡ w.jobs)
      × ((resume_director (pause_director reason w).0).1 ≡ [])
      × ((pid : String)
          → elem pid (ids_of (select is_active w.projects)) ≡ true
          → lookup pid (resume_director (pause_director reason w).0).0.pause_flags ≡ none)
  unfolding resume_director pause_director clear_flags
  resume_director-pause_director =
      rw
        (
          select-none (is_cascaded flagged) w.projects still_clear,
          restatus-none (is_cascaded flagged) active w.projects still_clear,
        )
        (
          refl,
          append-nil w.jobs,
          refl,
          λ pid h. rw lookup-drop_stale (
              ground (
                arith,
                h,
                eq_iff "director_pause" "director_pause",
                lookup-set_flags (ids_of (select is_active w.projects)) "director_pause" pid
                    w.pause_flags,
              )),
        )
