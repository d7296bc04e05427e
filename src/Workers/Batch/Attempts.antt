-- ===== src/Workers/Batch/Attempts.antt =====
-- The attempts that a project's deliverables have left, and what the steps of a batch of
-- workers/tasks.py do to them.
use auto_builder.Base.{
  ℕ, suc, ◌+◌, ◌-◌, ◌≤◌, ◌<◌, String, Option, none, some, true, false, List, [], ◌∷◌, ◌≡◌, ◌⊎◌, inl,
  inr, ◌==◌, if◌then◌else◌, select, IsIn, arith, eq_iff, Bool-cases, refl, ap, ◌∙◌,
}
use auto_builder.Model.{DeliverableStatus, failed, in_progress, is_waiting, same_deliverable_status}
use auto_builder.Model.Rows.{Deliverable}
use auto_builder.Deliverables.Update.{is_of_project, find_row}
use auto_builder.Deliverables.Ready.{is_actionable}
use auto_builder.Workers.State.{Engine, Run}
use auto_builder.Workers.Batch.{
  Loop, mark_row, mark, run_batch, look, project_rows, work_on, marked, is_pause_requested, counted,
}

-- What others do to a row: it keeps its id, does not lose attempts, does not wait anew, and a
-- failed one stays failed, if its attempts stay the same.
pub record Tame (a b : Deliverable) : Type 0 where
  pub same_id : b.id ≡ a.id
  pub counts : a.retry_count ≤ b.retry_count
  pub waits : is_waiting b.status ≡ true → is_waiting a.status ≡ true
  pub fails :
      same_deliverable_status a.status failed ≡ true
      → (same_deliverable_status b.status failed ≡ true) ⊎ (a.retry_count < b.retry_count)

abbrev pub AllTame : List Deliverable → List Deliverable → Type 0
AllTame [] [] = Unit
AllTame [] (_ ∷ _) = ⊥
AllTame (_ ∷ _) [] = ⊥
AllTame (a ∷ ds) (b ∷ es) = Tame a b × AllTame ds es

-- The attempts that a deliverable has left.
unfoldable pub attempts : ℕ → Deliverable → ℕ
attempts limit d =
    if is_waiting d.status then suc (limit - d.retry_count) else limit - d.retry_count

unfoldable pub all_attempts : ℕ → List Deliverable → ℕ
all_attempts limit [] = 0
all_attempts limit (d ∷ ds) = attempts limit d + all_attempts limit ds

-- A status that is waiting is neither of the two that a mark looks at.
apart :
    (s : DeliverableStatus)
    → is_waiting s ≡ true
    → (same_deliverable_status s failed ≡ false) × (same_deliverable_status s in_progress ≡ false)
apart DeliverableStatus.planned h = (refl, refl)
apart DeliverableStatus.pending h = (refl, refl)
apart DeliverableStatus.in_progress h = cc
apart DeliverableStatus.completed h = cc
apart DeliverableStatus.failed h = cc
apart DeliverableStatus.blocked h = cc
apart DeliverableStatus.skipped h = cc

distinct :
    (s : DeliverableStatus)
    → same_deliverable_status s failed ≡ true
    → (same_deliverable_status s in_progress ≡ false) × (is_waiting s ≡ false)
distinct DeliverableStatus.planned h = cc
distinct DeliverableStatus.pending h = cc
distinct DeliverableStatus.in_progress h = cc
distinct DeliverableStatus.completed h = cc
distinct DeliverableStatus.failed h = (refl, refl)
distinct DeliverableStatus.blocked h = cc
distinct DeliverableStatus.skipped h = cc

attempts-Tame : (limit : ℕ) (a b : Deliverable) → Tame a b → attempts limit b ≤ attempts limit a
unfolding attempts
attempts-Tame limit a b t = ground (arith, t.counts, t.waits)

attempts-mark :
    (limit now : ℕ) (d : Deliverable) → attempts limit (mark_row now d) ≤ attempts limit d
unfolding attempts mark_row
attempts-mark limit now d = ground (arith, apart d.status, distinct d.status)

attempts-attempt :
    (limit now : ℕ) (a b : Deliverable)
    → Tame a b
    → is_actionable limit a ≡ true
    → attempts limit (mark_row now b) < attempts limit a
unfolding attempts mark_row
attempts-attempt limit now a b t act =
    ground (arith, t.counts, t.waits, t.fails, apart b.status, distinct b.status, distinct a.status)

pub all_attempts-tame :
    (limit : ℕ) (ds es : List Deliverable)
    → AllTame ds es
    → all_attempts limit es ≤ all_attempts limit ds
unfolding all_attempts
all_attempts-tame limit [] [] h = omega arith
all_attempts-tame limit [] (_ ∷ _) h = absurd h
all_attempts-tame limit (_ ∷ _) [] h = absurd h
all_attempts-tame limit (a ∷ ds) (b ∷ es) h =
    omega (arith, attempts-Tame limit a b h.0, all_attempts-tame limit ds es h.1)

all_attempts-mark :
    (limit now : ℕ) (did : String) (ds : List Deliverable)
    → all_attempts limit (mark now did ds) ≤ all_attempts limit ds
unfolding all_attempts mark
all_attempts-mark limit now did [] = omega arith
all_attempts-mark limit now did (d ∷ ds) =
    ground (arith, attempts-mark limit now d, all_attempts-mark limit now did ds)

-- To mark a deliverable that can act uses up an attempt, whatever others have done to the rows.
all_attempts-attempt :
    (limit now : ℕ) (d : Deliverable) (ds es : List Deliverable)
    → AllTame ds es
    → is_actionable limit d ≡ true
    → IsIn d ds
    → all_attempts limit (mark now d.id es) < all_attempts limit ds
unfolding all_attempts mark
all_attempts-attempt limit now d [] es h act i = absurd i
all_attempts-attempt limit now d (_ ∷ _) [] h act i = absurd h
all_attempts-attempt limit now d (a ∷ ds) (b ∷ es) h act (inl here) =
    let id_here : (b.id == d.id) ≡ true =
      (eq_iff b.id d.id).1 (h.0.same_id ∙ ap (λ x. x.id) here) in
    let can : is_actionable limit a ≡ true = rw here act in
    rw id_here (
      omega (
        arith,
        attempts-attempt limit now a b h.0 can,
        all_attempts-tame limit ds es h.1,
        all_attempts-mark limit now d.id es,
      ))
all_attempts-attempt limit now d (a ∷ ds) (b ∷ es) h act (inr there) = ground (
  arith,
  attempts-Tame limit a b h.0,
  attempts-mark limit now b,
  all_attempts-attempt limit now d ds es h.1 act there,
)

mark_row-project :
    (pid : String) (now : ℕ) (d : Deliverable)
    → is_of_project pid (mark_row now d) ≡ is_of_project pid d
unfolding mark_row
mark_row-project pid now d = ground arith

select-mark :
    (pid : String) (now : ℕ) (did : String) (ds : List Deliverable)
    → select (is_of_project pid) (mark now did ds) ≡ mark now did (select (is_of_project pid) ds)
unfolding select mark mark_row
select-mark pid now did [] = refl
select-mark pid now did (d ∷ ds) =
    ground (arith, select-mark pid now did ds, mark_row-project pid now d)

module _ (r : Run) (sid : String)
    (tame : (tick : ℕ) (e : Engine)
      → AllTame (project_rows r e) (project_rows r (r.outside tick e))) where
  unfoldable pub left : Loop → ℕ
  left l = all_attempts r.retry_limit (project_rows r l.engine)

  pub left-look : (l : Loop) → left (look r l) ≤ left l
  unfolding left
  left-look l = all_attempts-tame r.retry_limit _ _ (tame l.tick l.engine)

  left-marked : (did : String) (l : Loop) → left (marked r did l) ≤ left l
  unfolding left project_rows
  left-marked did l =
      rw (select-mark r.project_id r.now did l.engine.world.deliverables)
        (all_attempts-mark r.retry_limit r.now did (project_rows r l.engine))

  left-work_on : (did : String) (l : Loop) → left (work_on r sid did l) ≤ left (marked r did l)
  unfolding left work_on project_rows
  left-work_on did l = left-look (marked r did l)

  left-counted : (o : Option Deliverable) (n : ℕ) (l : Loop) → left (counted r sid o n l).0 ≡ left l
  unfolding left
  left-counted none n l = refl
  left-counted (some row) n l = ground arith

  left-attempt :
      (d : Deliverable) (l : Loop)
      → IsIn d (project_rows r l.engine)
      → is_actionable r.retry_limit d ≡ true
      → left (marked r d.id (look r l)) < left l
  unfolding left project_rows
  left-attempt d l i act =
      rw (select-mark r.project_id r.now d.id (look r l).engine.world.deliverables)
        (all_attempts-attempt r.retry_limit r.now d _ _ (tame l.tick l.engine) act i)

  left-rest :
      (d : Deliverable) (ds : List Deliverable) (n : ℕ) (l : Loop)
      → ((m : ℕ) (l' : Loop) → left (run_batch r sid ds m l').0 ≤ left l')
      → (let done = work_on r sid d.id l in
          let next = counted r sid (find_row d.id done.engine.world.deliverables) n done in
          left (run_batch r sid ds next.1 next.0).0)
        ≤ left (marked r d.id l)
  left-rest d ds n l ih =
      let done = work_on r sid d.id l in
      let next = counted r sid (find_row d.id done.engine.world.deliverables) n done in
      omega (
        arith,
        ih next.1 next.0,
        left-counted (find_row d.id done.engine.world.deliverables) n done,
        left-work_on d.id l,
      )

  pub run_batch-spends :
      (ds : List Deliverable) (n : ℕ) (l : Loop) → left (run_batch r sid ds n l).0 ≤ left l
  unfolding run_batch
  run_batch-spends [] n l = omega arith
  run_batch-spends (d ∷ ds) n l = elim (Bool-cases (is_pause_requested r (look r l).engine)) [
    | inl e ↦ rw e (left-look l)
    | inr e ↦ rw e (
        omega (
          arith,
          left-rest d ds n (look r l) (run_batch-spends ds),
          left-look l,
          left-marked d.id (look r l),
        ))
  ]

  -- A batch that is not stopped at once uses up an attempt.
  pub run_batch-attempt :
      (d : Deliverable) (ds : List Deliverable) (n : ℕ) (l : Loop)
      → IsIn d (project_rows r l.engine)
      → is_actionable r.retry_limit d ≡ true
      → (run_batch r sid (d ∷ ds) n l).2 ≡ false
      → left (run_batch r sid (d ∷ ds) n l).0 < left l
  unfolding run_batch
  run_batch-attempt d ds n l i act = elim (Bool-cases (is_pause_requested r (look r l).engine)) [
    | inl e ↦ rw e (λ h. cc)
    | inr e ↦ rw e (λ h.
        omega (arith, left-rest d ds n (look r l) (run_batch-spends ds), left-attempt d l i act))
  ]
