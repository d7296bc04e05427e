-- ===== src/Lifecycle/Audit/Rows.antt =====
-- How the writes to the project table change a project's status and the table's key.
use auto_builder.Base.{
  String, Option, none, some, Bool, List, [], ◌∷◌, ◌≡◌, refl, ◌==◌, if◌then◌else◌, find, arith,
  eq_iff,
}
use auto_builder.Model.{ProjectStatus, World, find_project, update_rows}
use auto_builder.Model.Rows.{Project}
use auto_builder.Lifecycle.Bulk.{ids_of, restatus}
use auto_builder.Lifecycle.Audit.{status_in, IsKeyed}

abbrev pub replace : ProjectStatus → Option ProjectStatus → Option ProjectStatus
replace s none = none
replace s (some _) = some s

find-status :
    (pid : String) (ps : List Project) (p : Project)
    → find (λ (q : Project). q.id == pid) ps ≡ some p
    → (p.id ≡ pid) × (status_in pid ps ≡ some p.status)
unfolding find status_in
find-status pid [] p h = ground arith
find-status pid (q ∷ ps) p h = ground (arith, find-status pid ps p, eq_iff q.id pid)

pub find_project-status :
    (pid : String) (w : World) {p : Project}
    → find_project pid w ≡ some p
    → (p.id ≡ pid) × (status_in pid w.projects ≡ some p.status)
unfolding find_project
find_project-status pid w {p} h = find-status pid w.projects p h

module _ (f : Project → Project) (keeps : (p : Project) → (f p).id ≡ p.id) where
  pub status_in-update_rows :
      (s : ProjectStatus) (sets : (p : Project) → (f p).status ≡ s) (pid j : String)
      (ps : List Project)
      → status_in j (update_rows pid f ps)
        ≡ (if pid == j then replace s (status_in j ps) else status_in j ps)
  unfolding status_in update_rows
  status_in-update_rows s sets pid j [] = ground arith
  status_in-update_rows s sets pid j (p ∷ ps) = ground (
    arith,
    status_in-update_rows s sets pid j ps,
    keeps p,
    sets p,
    eq_iff p.id pid,
    eq_iff p.id j,
    eq_iff pid j,
  )

  pub ids_of-update_rows :
      (pid : String) (ps : List Project) → ids_of (update_rows pid f ps) ≡ ids_of ps
  unfolding update_rows
  ids_of-update_rows pid [] = refl
  ids_of-update_rows pid (p ∷ ps) = ground (arith, ids_of-update_rows pid ps, keeps p)

pub ids_of-restatus :
    (sel : Project → Bool) (s : ProjectStatus) (ps : List Project)
    → ids_of (restatus sel s ps) ≡ ids_of ps
unfolding restatus
ids_of-restatus sel s [] = refl
ids_of-restatus sel s (p ∷ ps) = ground (arith, ids_of-restatus sel s ps)

pub IsKeyed-ids_of : (ps qs : List Project) → ids_of qs ≡ ids_of ps → IsKeyed ps → IsKeyed qs
IsKeyed-ids_of [] [] e k = tt
IsKeyed-ids_of [] (q ∷ qs) e k = cc
IsKeyed-ids_of (p ∷ ps) [] e k = cc
IsKeyed-ids_of (p ∷ ps) (q ∷ qs) e k = (cc k.0, IsKeyed-ids_of ps qs (cc) k.1)
