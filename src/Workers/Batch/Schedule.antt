-- ===== src/Workers/Batch/Schedule.antt =====
-- The batch loop of workers/tasks.py refines the scheduler.
use auto_builder.Base.{
  ℕ, zero, suc, String, Option, none, some, Bool, true, false, List, [], ◌∷◌, ◌≡◌, ◌≢◌, ◌↔◌, refl,
  inl, inr, ltb, IsIn, Bool-cases, subst, arith,
}
use auto_builder.Model.{World, find_project, completed, failed, same_deliverable_status}
use auto_builder.Model.Rows.{Project, Deliverable}
use auto_builder.Lifecycle.Single.{suspend_found, suspend_project}
use auto_builder.Deliverables.Update.{find_row}
use auto_builder.Deliverables.Ready.Contents.{select_ready_iff}
use auto_builder.Deliverables.Failure.{BatchOutcome, ok, threshold_exceeded, track_batch_result}
use auto_builder.Workers.State.{Engine, Run}
use auto_builder.Workers.Batch.Scheduler.{
  Board, IsReadyIn, Moves, here, others, choose, take, drain, skip,
}
use auto_builder.Workers.Batch.{
  Loop, Stop, pause_requested, cost_exceeded, threshold_reached, drained, out_of_fuel, look, mark,
  work_on, counted, is_pause_requested, ready_rows, run_batch, report_batch, judged, cost_of,
  after_batch, finish_batch, begun, turn, round, proceed, batch_loop, start, close_loop,
  execute_batch_loop, with_deliverables, project_rows,
}

suspend_found-deliverables :
    (now : ℕ) (reason : String) (publishes : Bool) (found : Option Project) (w : World)
    → (suspend_found now reason publishes found w).deliverables ≡ w.deliverables
unfolding suspend_found
suspend_found-deliverables now reason publishes none w = refl
suspend_found-deliverables now reason publishes (some p) w = ground arith

module _ (r : Run) (sid : String) (s : Board) where
  abbrev board : Loop → List Deliverable → Board
  board l batch = record {
    rows = l.engine.world.deliverables;
    open_batch = batch;
    is_drained = false;
  }

  -- The board of the loop's rows can be reached.
  Reaches : Loop → List Deliverable → Type 0
  Reaches l batch = Moves r sid s (board l batch)

  counted-Reaches :
      (o : Option Deliverable) (n : ℕ) (l : Loop) (batch : List Deliverable)
      → Reaches l batch
      → Reaches (counted r sid o n l).0 batch
  unfolding Reaches
  counted-Reaches none n l batch h = h
  counted-Reaches (some d) n l batch h =
      elim (Bool-cases (same_deliverable_status d.status completed)) [
        | inl e ↦ rw e h
        | inr e ↦ elim (Bool-cases (same_deliverable_status d.status failed)) [
          | inl e' ↦ rw (e, e') h
          | inr e' ↦ rw (e, e') h
        ]
      ]

  look-Reaches : (l : Loop) (batch : List Deliverable) → Reaches l batch → Reaches (look r l) batch
  unfolding Reaches
  look-Reaches l batch h = Moves.next h (others l.tick l.engine batch false)

  work_on-Reaches :
      (d : Deliverable) (ds : List Deliverable) (l : Loop)
      → Reaches l (d ∷ ds)
      → Reaches (work_on r sid d.id l) ds
  unfolding work_on Reaches
  work_on-Reaches d ds l h =
      let taken = Moves.next h (take l.engine.world.deliverables d ds) in
      Moves.next taken (others l.tick (with_deliverables (mark r.now d.id) l.engine) ds false)

  -- After a batch the board holds what was not taken: nothing, unless a pause was requested.
  BatchReaches : Loop × ℕ × Bool → Type 0
  BatchReaches (l, n, paused) =
      (batch : List Deliverable) × Reaches l batch × (paused ≡ false → batch ≡ [])

  run_batch-Reaches :
      (ds : List Deliverable) (n : ℕ) (l : Loop)
      → Reaches l ds
      → BatchReaches (run_batch r sid ds n l)
  unfolding run_batch BatchReaches
  run_batch-Reaches [] n l h = ([], h, λ _. refl)
  run_batch-Reaches (d ∷ ds) n l h = elim (Bool-cases (is_pause_requested r (look r l).engine)) [
    | inl e ↦ rw e (d ∷ ds, look-Reaches l (d ∷ ds) h, λ f. cc)
    | inr e ↦
        let done = work_on r sid d.id (look r l) in
        rw e (
          run_batch-Reaches ds _ _ (
            counted-Reaches (find_row d.id done.engine.world.deliverables) n done ds
              (work_on-Reaches d ds (look r l) (look-Reaches l (d ∷ ds) h))))
  ]

  judged-Reaches :
      (out : ℕ × BatchOutcome) (l : Loop)
      → Reaches l []
      → Reaches (judged r sid out l).0 [] × ((judged r sid out l).1 ≢ some drained)
  unfolding Reaches suspend_project
  judged-Reaches (counter, threshold_exceeded) l h = (
    rw
        (suspend_found-deliverables r.now (r.threshold_reason r.threshold) true
          (find_project r.project_id l.engine.world) l.engine.world)
        h,
    λ e. cc,
  )
  judged-Reaches (counter, ok) l h =
      elim (Bool-cases (ltb r.cost_ceiling (cost_of (find_project r.project_id l.engine.world)))) [
        | inl e ↦ rw e (h, λ e. cc)
        | inr e ↦ rw e (h, λ e. cc)
      ]

  -- Nothing is left of the batch where the loop goes on, or stops for another reason than a pause;
  -- and nothing is ready where it stops because of that.
  Settled : Option Stop → Loop → List Deliverable → Type 0
  Settled (some pause_requested) l batch = Unit
  Settled (some drained) l batch = (batch ≡ []) × (ready_rows r l.engine ≡ [])
  Settled stop l batch = batch ≡ []

  RoundReaches : Loop × Option Stop → Type 0
  RoundReaches (l, stop) = (batch : List Deliverable) × Reaches l batch × Settled stop l batch

  Settled-judged : (stop : Option Stop) (l : Loop) → stop ≢ some drained → Settled stop l []
  unfolding Settled
  Settled-judged none l h = refl
  Settled-judged (some pause_requested) l h = tt
  Settled-judged (some cost_exceeded) l h = refl
  Settled-judged (some threshold_reached) l h = refl
  Settled-judged (some drained) l h = absurd (h refl)
  Settled-judged (some out_of_fuel) l h = refl

  finish_batch-Reaches :
      (frontier : List Deliverable) (b : Loop × ℕ × Bool)
      → BatchReaches b
      → RoundReaches (finish_batch r sid frontier b)
  unfolding after_batch report_batch BatchReaches RoundReaches Settled Reaches
  finish_batch-Reaches frontier (l, n, true) (batch, h, whole) = (batch, h, tt)
  finish_batch-Reaches frontier (l, n, false) (batch, h, whole) =
      let reported = report_batch r sid frontier l in
      let out =
        judged-Reaches (track_batch_result (ltb 0 n) r.threshold l.failures_in_row) reported
          (subst (Reaches l) (whole refl) h) in
      ([], out.0, Settled-judged _ _ out.1)

  turn-Reaches :
      (ready : List Deliverable) (l : Loop)
      → ready_rows r l.engine ≡ ready
      → Reaches l []
      → RoundReaches (turn r sid ready l)
  unfolding RoundReaches Settled Reaches ready_rows project_rows
  turn-Reaches [] l e h = ([], h, (refl, e))
  turn-Reaches (d ∷ ds) l e h =
      let chosen = Moves.next h (
        choose l.engine.world.deliverables (d ∷ ds) (λ x.
          subst (λ ready. IsIn x ready ↔ IsReadyIn r l.engine.world.deliverables x) e
            (select_ready_iff r.retry_limit (project_rows r l.engine) x))) in
      finish_batch-Reaches (d ∷ ds) (run_batch r sid (d ∷ ds) 0 (begun r sid l))
        (run_batch-Reaches (d ∷ ds) 0 (begun r sid l) chosen)

  round-Reaches : (l : Loop) → Reaches l [] → RoundReaches (round r sid l)
  unfolding round RoundReaches Settled
  round-Reaches l h =
      let seen = look-Reaches l [] h in
      elim (Bool-cases (is_pause_requested r (look r l).engine)) [
        | inl e ↦ rw e ([], seen, tt)
        | inr e ↦ rw e (turn-Reaches (ready_rows r (look r l).engine) (look r l) refl seen)
      ]

  LoopReaches : Loop × Stop → Type 0
  LoopReaches (l, stop) = (batch : List Deliverable) × Reaches l batch × Settled (some stop) l batch

  proceed-Reaches :
      (out : Loop × Option Stop) (rest : Loop → Loop × Stop)
      → RoundReaches out
      → ((l : Loop) → Reaches l [] → LoopReaches (rest l))
      → LoopReaches (proceed r sid out rest)
  unfolding RoundReaches LoopReaches Settled
  proceed-Reaches (l, some stop) rest h go_on = h
  proceed-Reaches (l, none) rest (batch, h, e) go_on = go_on l (subst (Reaches l) e h)

  batch_loop-Reaches : (fuel : ℕ) (l : Loop) → Reaches l [] → LoopReaches (batch_loop r sid fuel l)
  unfolding batch_loop LoopReaches Settled
  batch_loop-Reaches zero l h = ([], h, refl)
  batch_loop-Reaches (suc fuel) l h =
      proceed-Reaches (round r sid l) (batch_loop r sid fuel) (round-Reaches l h)
        (batch_loop-Reaches fuel)

  Ended : Loop × Stop → Type 0
  Ended (l, drained) =
      Moves r sid s
        (record { rows = l.engine.world.deliverables; open_batch = []; is_drained = true })
  Ended (l, stop) =
      (batch : List Deliverable) × Reaches l batch × (stop ≢ pause_requested → batch ≡ [])

  close_loop-Ended : (out : Loop × Stop) → LoopReaches out → Ended (close_loop r sid out)
  unfolding Ended LoopReaches Settled Reaches ready_rows project_rows
  close_loop-Ended (l, pause_requested) (batch, h, e) = (batch, h, λ f. absurd (f refl))
  close_loop-Ended (l, cost_exceeded) (batch, h, e) = (batch, h, λ _. e)
  close_loop-Ended (l, threshold_reached) (batch, h, e) = (batch, h, λ _. e)
  close_loop-Ended (l, out_of_fuel) (batch, h, e) = (batch, h, λ _. e)
  close_loop-Ended (l, drained) (batch, h, (e, none_ready)) =
      let at_end = subst (Reaches l) e h in
      let ended = Moves.next at_end (
        drain l.engine.world.deliverables (λ d ready.
          subst (IsIn d) none_ready
            ((select_ready_iff r.retry_limit (project_rows r l.engine) d).1 ready))) in
      Moves.next (Moves.next ended (others l.tick l.engine [] true))
        (skip (r.outside l.tick l.engine).world.deliverables)

-- How the board looks at the end, for each reason to stop: drained; with what a requested pause has left of
-- a batch; or with nothing open.
abbrev pub IsSettled : Run → String → Board → Loop × Stop → Type 0
IsSettled r sid s (l, drained) =
    Moves r sid s
      (record { rows = l.engine.world.deliverables; open_batch = []; is_drained = true })
IsSettled r sid s (l, pause_requested) =
    (batch : List Deliverable) × Moves r sid s
      (record { rows = l.engine.world.deliverables; open_batch = batch; is_drained = false })
IsSettled r sid s (l, stop) =
    Moves r sid s
      (record { rows = l.engine.world.deliverables; open_batch = []; is_drained = false })

Ended-IsSettled :
    (r : Run) (sid : String) (s : Board) (out : Loop × Stop)
    → Ended r sid s out
    → IsSettled r sid s out
unfolding Ended Reaches
Ended-IsSettled r sid s (l, drained) h = h
Ended-IsSettled r sid s (l, pause_requested) (batch, h, e) = (batch, h)
Ended-IsSettled r sid s (l, cost_exceeded) (batch, h, e) = subst (Reaches r sid s l) (e (λ f. cc)) h
Ended-IsSettled r sid s (l, threshold_reached) (batch, h, e) =
    subst (Reaches r sid s l) (e (λ f. cc)) h
Ended-IsSettled r sid s (l, out_of_fuel) (batch, h, e) = subst (Reaches r sid s l) (e (λ f. cc)) h

-- The batch loop refines the scheduler: whatever others do between its reads of the tables, and however it
-- stops, its writes to the deliverables are a run of the scheduler's moves. So it takes a deliverable only
-- from a batch that was chosen of exactly the ready ones, chooses no batch before the last is taken up, and
-- skips only after a read that found nothing ready, though others may write between that read and the
-- skipping. It ends drained only after such a read; nothing of a batch is left open, unless a pause was
-- requested.
pub execute_batch_loop-Moves :
    (r : Run) (sid : String) (fuel tick : ℕ) (e : Engine)
    → IsSettled r sid
        (record { rows = e.world.deliverables; open_batch = []; is_drained = false })
        (execute_batch_loop r sid fuel tick e)
unfolding execute_batch_loop Reaches
execute_batch_loop-Moves r sid fuel tick e =
    let s : Board = record { rows = e.world.deliverables; open_batch = []; is_drained = false } in
    Ended-IsSettled r sid s (close_loop r sid (batch_loop r sid fuel (start r sid tick e))) (
      close_loop-Ended r sid s (batch_loop r sid fuel (start r sid tick e))
        (batch_loop-Reaches r sid s fuel (start r sid tick e) here))
