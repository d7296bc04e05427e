-- ===== src/Workers/Batch/Invariant.antt =====
-- What each step of the batch loop of workers/tasks.py keeps, the loop keeps.
use auto_builder.Base.{
  ℕ, zero, suc, String, Option, none, some, Bool, true, false, List, [], ◌∷◌, ◌≡◌, refl, ◌∙◌, inl,
  inr, ltb, Bool-cases,
}
use auto_builder.Model.{World, find_project, completed, failed, same_deliverable_status}
use auto_builder.Model.Rows.{Deliverable}
use auto_builder.Model.Values.{Fields, text, list, field, end}
use auto_builder.Workflows.Manifest.{per_deliverable, per_batch}
use auto_builder.Deliverables.Update.{find_row}
use auto_builder.Deliverables.Failure.{BatchOutcome, ok, threshold_exceeded}
use auto_builder.Workers.State.{Engine, Run, run_scheduled_validators}
use auto_builder.Workers.Batch.{
  Loop, Stop, pause_requested, cost_exceeded, threshold_reached, drained, out_of_fuel, look,
  work_on, counted, is_pause_requested, ready_rows, run_batch, report_batch, judged, cost_of,
  after_batch, finish_batch, begun, turn, round, proceed, batch_loop, start, close_loop,
  execute_batch_loop, id_items,
}

abbrev pub deliverable_state : String → Fields
deliverable_state did = field "current_deliverable_id" (text did) end

abbrev pub batch_state : List Deliverable → Fields
batch_state frontier = field "current_batch_deliverables" (list (id_items frontier)) end

-- Kept by what others do, whatever the world becomes, and by the validators of the batches.
pub record IsKept (r : Run) (sid : String) (P : Engine → Type 0) : Type 0 where
  pub outside : (tick : ℕ) (e : Engine) → P e → P (r.outside tick e)
  pub world : (w : World) (e : Engine) → P e → P (record e { world = w })
  pub deliverable :
      (did : String) (e : Engine)
      → P e
      → P (run_scheduled_validators r sid per_deliverable (deliverable_state did) e)
  pub batch :
      (frontier : List Deliverable) (e : Engine)
      → P e
      → P (run_scheduled_validators r sid per_batch (batch_state frontier) e)

module _ (r : Run) (sid : String) (P : Engine → Type 0) (kept : IsKept r sid P) where
  counted-keeps :
      (o : Option Deliverable) (n : ℕ) (l : Loop) → P l.engine → P (counted r sid o n l).0.engine
  counted-keeps none n l h = h
  counted-keeps (some d) n l h = elim (Bool-cases (same_deliverable_status d.status completed)) [
    | inl e ↦ rw e h
    | inr e ↦ elim (Bool-cases (same_deliverable_status d.status failed)) [
      | inl e' ↦ rw (e, e') h
      | inr e' ↦ rw (e, e') h
    ]
  ]

  work_on-keeps : (did : String) (l : Loop) → P l.engine → P (work_on r sid did l).engine
  unfolding work_on
  work_on-keeps did l h = kept.deliverable did _ (kept.outside l.tick _ (kept.world _ l.engine h))

  run_batch-keeps :
      (ds : List Deliverable) (n : ℕ) (l : Loop) → P l.engine → P (run_batch r sid ds n l).0.engine
  unfolding run_batch
  run_batch-keeps [] n l h = h
  run_batch-keeps (d ∷ ds) n l h = elim (Bool-cases (is_pause_requested r (look r l).engine)) [
    | inl e ↦ rw e (kept.outside l.tick l.engine h)
    | inr e ↦
        let done = work_on r sid d.id (look r l) in
        rw e (
          run_batch-keeps ds _ _ (
            counted-keeps (find_row d.id done.engine.world.deliverables) n done
              (work_on-keeps d.id (look r l) (kept.outside l.tick l.engine h))))
  ]

  judged-keeps : (out : ℕ × BatchOutcome) (l : Loop) → P l.engine → P (judged r sid out l).0.engine
  judged-keeps (counter, threshold_exceeded) l h = kept.world _ l.engine h
  judged-keeps (counter, ok) l h =
      elim (Bool-cases (ltb r.cost_ceiling (cost_of (find_project r.project_id l.engine.world)))) [
        | inl e ↦ rw e (kept.world _ l.engine h)
        | inr e ↦ rw e h
      ]

  finish_batch-keeps :
      (frontier : List Deliverable) (b : Loop × ℕ × Bool)
      → P b.0.engine
      → P (finish_batch r sid frontier b).0.engine
  unfolding after_batch report_batch
  finish_batch-keeps frontier (l, n, true) h = h
  finish_batch-keeps frontier (l, n, false) h = judged-keeps _ (report_batch r sid frontier l) (
      kept.world _ (run_scheduled_validators r sid per_batch (batch_state frontier) l.engine)
        (kept.batch frontier l.engine h))

  turn-keeps : (ready : List Deliverable) (l : Loop) → P l.engine → P (turn r sid ready l).0.engine
  turn-keeps [] l h = h
  turn-keeps (d ∷ ds) l h =
      finish_batch-keeps (d ∷ ds) (run_batch r sid (d ∷ ds) 0 (begun r sid l))
        (run_batch-keeps (d ∷ ds) 0 (begun r sid l) h)

  round-keeps : (l : Loop) → P l.engine → P (round r sid l).0.engine
  unfolding round
  round-keeps l h =
      let seen = kept.outside l.tick l.engine h in
      elim (Bool-cases (is_pause_requested r (look r l).engine)) [
        | inl e ↦ rw e seen
        | inr e ↦ rw e (turn-keeps (ready_rows r (look r l).engine) (look r l) seen)
      ]

  proceed-keeps :
      (out : Loop × Option Stop) (next : Loop → Loop × Stop)
      → P out.0.engine
      → ((l : Loop) → P l.engine → P (next l).0.engine)
      → P (proceed r sid out next).0.engine
  proceed-keeps (l, some stop) next h go_on = h
  proceed-keeps (l, none) next h go_on = go_on l h

  batch_loop-keeps : (fuel : ℕ) (l : Loop) → P l.engine → P (batch_loop r sid fuel l).0.engine
  unfolding batch_loop
  batch_loop-keeps zero l h = h
  batch_loop-keeps (suc fuel) l h =
      proceed-keeps (round r sid l) (batch_loop r sid fuel) (round-keeps l h)
        (batch_loop-keeps fuel)

  close_loop-keeps : (out : Loop × Stop) → P out.0.engine → P (close_loop r sid out).0.engine
  close_loop-keeps (l, pause_requested) h = h
  close_loop-keeps (l, cost_exceeded) h = h
  close_loop-keeps (l, threshold_reached) h = h
  close_loop-keeps (l, drained) h = kept.world _ (look r l).engine (kept.outside l.tick l.engine h)
  close_loop-keeps (l, out_of_fuel) h = h

  -- What others and each step keep, the whole loop keeps.
  pub execute_batch_loop-keeps :
      (fuel tick : ℕ) (e : Engine) → P e → P (execute_batch_loop r sid fuel tick e).0.engine
  unfolding execute_batch_loop
  execute_batch_loop-keeps fuel tick e h =
      close_loop-keeps (batch_loop r sid fuel (start r sid tick e))
        (batch_loop-keeps fuel (start r sid tick e) h)

abbrev pub Keeps : Run → Type 0
Keeps r = (tick : ℕ) (e : Engine) → (r.outside tick e).stage_executions ≡ e.stage_executions

pub execute_batch_loop-stage_executions :
    (r : Run) (sid : String)
    → Keeps r
    → (fuel tick : ℕ) (e : Engine)
    → (execute_batch_loop r sid fuel tick e).0.engine.stage_executions ≡ e.stage_executions
execute_batch_loop-stage_executions r sid keeps fuel tick e =
    execute_batch_loop-keeps r sid (λ e'. e'.stage_executions ≡ e.stage_executions)
      (record {
        outside = λ t e' h. keeps t e' ∙ h;
        world = λ w e' h. h;
        deliverable = λ did e' h. h;
        batch = λ ds e' h. h;
      })
      fuel tick e refl
