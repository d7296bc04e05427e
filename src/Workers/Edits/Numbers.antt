-- ===== src/Workers/Edits/Numbers.antt =====
-- The task groups of a batch of edits.
use mathlib.Core.List.{append_assoc, append-nil}
use auto_builder.Base.{
  ℕ, suc, String, some, List, [], ◌∷◌, ◌++◌, ◌≡◌, refl, subst, map, eq_iff, arith,
}
use auto_builder.Model.{find_project}
use auto_builder.Model.Rows.{Project}
use auto_builder.Workflows.Stages.{pending}
use auto_builder.Lifecycle.Audit.Rows.{find_project-status}
use auto_builder.Workers.State.{Engine, StageExecution, TaskGroupExecution, Edit}
use auto_builder.Workers.Edits.{
  created, latest_stage, count_taskgroups, new_taskgroup, attach, edit_found, create_edit_taskgroup,
  all_created, create_batch_edit_taskgroups,
}

-- The rows are the edits', in order, under one stage execution, and are numbered on from `n`.
abbrev pub IsNumbered : String → String → ℕ → List Edit → List TaskGroupExecution → Type 0
IsNumbered pid sid n [] [] = Unit
IsNumbered pid sid n [] (_ ∷ _) = ⊥
IsNumbered pid sid n (_ ∷ _) [] = ⊥
IsNumbered pid sid n (edit ∷ edits) (t ∷ ts) =
    (t.edit ≡ some edit)
    × (t.taskgroup_number ≡ suc n)
    × (t.stage_execution_id ≡ sid)
    × (t.project_id ≡ pid)
    × (t.status ≡ pending)
    × IsNumbered pid sid (suc n) edits ts

count_taskgroups-append :
    (pid : String) (ts : List TaskGroupExecution) (t : TaskGroupExecution)
    → t.project_id ≡ pid
    → count_taskgroups pid (ts ++ t ∷ []) ≡ suc (count_taskgroups pid ts)
unfolding count_taskgroups
count_taskgroups-append pid [] t own = ground (arith, eq_iff t.project_id pid)
count_taskgroups-append pid (x ∷ ts) t own = ground (arith, count_taskgroups-append pid ts t own)

module _ (workflows : List String) (pid : String) (fresh : ℕ → String × String) where
  -- One call, where the project and a stage execution of it are there.
  created_one :
      (n : ℕ) (edit : Edit) (e : Engine) {p : Project} {x : StageExecution}
      → find_project pid e.world ≡ some p
      → latest_stage pid e.stage_executions ≡ some x
      → create_edit_taskgroup workflows pid (fresh n).0 (fresh n).1 edit e ≡ (
        record e { taskgroups = e.taskgroups ++ new_taskgroup pid x.id (fresh n).1 edit e ∷ [] },
        created (fresh n).1,
      )
  unfolding create_edit_taskgroup edit_found attach
  created_one n edit e {p} {x} here there =
      let facts = find_project-status pid e.world here in rw (here, facts.0, there) refl

  -- A batch for a project that has a stage execution adds one task group for each edit, in the order of
  -- the edits, under the latest of its stage executions, numbered on from the count of the project's
  -- task groups; it replies with their ids, and changes nothing else.
  pub create_batch_edit_taskgroups-IsNumbered :
      (n : ℕ) (edits : List Edit) (e : Engine) {p : Project} {x : StageExecution}
      → find_project pid e.world ≡ some p
      → latest_stage pid e.stage_executions ≡ some x
      → (rows : List TaskGroupExecution) × (create_batch_edit_taskgroups workflows pid fresh n edits
            e
          ≡ (
            record e { taskgroups = e.taskgroups ++ rows },
            all_created (map (λ (t : TaskGroupExecution). t.id) rows),
          ))
        × IsNumbered pid x.id (count_taskgroups pid e.taskgroups) edits rows
  unfolding create_batch_edit_taskgroups
  create_batch_edit_taskgroups-IsNumbered n [] e here there =
      ([], rw (append-nil e.taskgroups) refl, tt)
  create_batch_edit_taskgroups-IsNumbered n (edit ∷ edits) e {p} {x} here there =
      let t = new_taskgroup pid x.id (fresh n).1 edit e in
      let next : Engine = record e { taskgroups = e.taskgroups ++ t ∷ [] } in
      let rest = create_batch_edit_taskgroups-IsNumbered (suc n) edits next here there in
      let counted = count_taskgroups-append pid e.taskgroups t refl in
      (
        t ∷ rest.0,
        rw (created_one n edit e here there, rest.1, append_assoc e.taskgroups (t ∷ []) rest.0)
            refl,
        (
          refl,
          omega arith,
          refl,
          refl,
          refl,
          subst (λ k. IsNumbered pid x.id k edits rest.0) counted rest.2,
        ),
      )
