-- ===== src/Workers/Batch/Ends.antt =====
-- The batch loop of workers/tasks.py ends: each batch uses up some of the attempts that are left.
use auto_builder.Base.{
  ℕ, zero, suc, ◌+◌, ◌≤◌, ◌<◌, String, Option, none, some, Bool, true, false, List, [], ◌∷◌, ◌≡◌,
  ◌≢◌, inl, inr, ltb, IsIn, arith, Bool-cases, refl, ap, ◌∙◌,
}
use auto_builder.Model.{find_project}
use auto_builder.Model.Rows.{Deliverable}
use auto_builder.Deliverables.Update.{find_row}
use auto_builder.Deliverables.Ready.Contents.{select_ready_iff}
use auto_builder.Deliverables.Failure.{BatchOutcome, ok, threshold_exceeded}
use auto_builder.Workers.State.{Engine, Run}
use auto_builder.Workers.Batch.{
  Loop, Stop, pause_requested, cost_exceeded, threshold_reached, drained, out_of_fuel, round,
  run_batch, proceed, batch_loop, ready_rows, look, project_rows, work_on, counted,
  is_pause_requested, start, close_loop, execute_batch_loop, finish_batch, after_batch,
  report_batch, judged, cost_of, turn, begun,
}
use auto_builder.Workers.Batch.Attempts.{AllTame, all_attempts, left, left-look, run_batch-attempt}

module _ (r : Run) (sid : String) where
  batch_count-counted :
      (o : Option Deliverable) (n : ℕ) (l : Loop)
      → (counted r sid o n l).0.batch_count ≡ l.batch_count
  batch_count-counted none n l = refl
  batch_count-counted (some row) n l = ground arith

  batch_count-run_batch :
      (ds : List Deliverable) (n : ℕ) (l : Loop)
      → (run_batch r sid ds n l).0.batch_count ≡ l.batch_count
  unfolding run_batch work_on
  batch_count-run_batch [] n l = refl
  batch_count-run_batch (d ∷ ds) n l = elim (Bool-cases (is_pause_requested r (look r l).engine)) [
    | inl e ↦ rw e refl
    | inr e ↦
        let done = work_on r sid d.id (look r l) in
        let o = find_row d.id done.engine.world.deliverables in
        rw e (batch_count-run_batch ds _ _ ∙ batch_count-counted o n done)
  ]

module _ (r : Run) (sid : String)
    (tame : (tick : ℕ) (e : Engine)
      → AllTame (project_rows r e) (project_rows r (r.outside tick e))) where
  -- A round that goes on has fewer attempts left, a round that finds nothing leaves nothing ready,
  -- and a round adds at most one batch.
  IsRound : ℕ → ℕ → Loop × Option Stop → Type 0
  IsRound n c (l, o) =
      (o ≡ none → left r sid tame l < n)
      × (o ≢ some out_of_fuel)
      × (o ≡ some drained → ready_rows r l.engine ≡ [])
      × (l.batch_count ≤ suc c)

  judged-IsRound :
      (n c : ℕ) (out : ℕ × BatchOutcome) (l : Loop)
      → left r sid tame l < n
      → l.batch_count ≤ suc c
      → IsRound n c (judged r sid out l)
  unfolding IsRound left
  judged-IsRound n c (counter, threshold_exceeded) l h k = (λ e. cc, λ e. cc, λ e. cc, k)
  judged-IsRound n c (counter, ok) l h k =
      elim (Bool-cases (ltb r.cost_ceiling (cost_of (find_project r.project_id l.engine.world)))) [
        | inl e ↦ rw e (λ e. cc, λ e. cc, λ e. cc, k)
        | inr e ↦ rw e (λ _. h, λ e. cc, λ e. cc, k)
      ]

  after_batch-IsRound :
      (n c : ℕ) (frontier : List Deliverable) (m : ℕ) (l : Loop)
      → left r sid tame l < n
      → l.batch_count ≤ suc c
      → IsRound n c (after_batch r sid frontier m l)
  unfolding after_batch report_batch left project_rows
  after_batch-IsRound n c frontier m l h k =
      judged-IsRound n c _ (report_batch r sid frontier l) h k

  finish_batch-IsRound :
      (n c : ℕ) (frontier : List Deliverable) (b : Loop × ℕ × Bool)
      → (b.2 ≡ false → left r sid tame b.0 < n)
      → b.0.batch_count ≤ suc c
      → IsRound n c (finish_batch r sid frontier b)
  unfolding IsRound
  finish_batch-IsRound n c frontier (l, m, true) h k = (λ e. cc, λ e. cc, λ e. cc, k)
  finish_batch-IsRound n c frontier (l, m, false) h k =
      after_batch-IsRound n c frontier m l (h refl) k

  turn-IsRound :
      (n : ℕ) (ready : List Deliverable) (l : Loop)
      → ready_rows r l.engine ≡ ready
      → left r sid tame l ≤ n
      → IsRound n l.batch_count (turn r sid ready l)
  unfolding IsRound ready_rows left
  turn-IsRound n [] l e le = (λ e. cc, λ e. cc, λ _. e, omega arith)
  turn-IsRound n (d ∷ ds) l e le =
      let is_in : IsIn d (ready_rows r l.engine) = rw e (inl refl) in
      let facts = (select_ready_iff r.retry_limit (project_rows r l.engine) d).0 is_in in
      finish_batch-IsRound n l.batch_count (d ∷ ds) (run_batch r sid (d ∷ ds) 0 (begun r sid l))
        (λ h. omega (arith, run_batch-attempt r sid tame d ds 0 (begun r sid l) facts.0 facts.1 h))
        (omega (arith, batch_count-run_batch r sid (d ∷ ds) 0 (begun r sid l)))

  round-IsRound : (l : Loop) → IsRound (left r sid tame l) l.batch_count (round r sid l)
  unfolding round IsRound
  round-IsRound l = elim (Bool-cases (is_pause_requested r (look r l).engine)) [
    | inl e ↦ rw e (λ e. cc, λ e. cc, λ e. cc, omega arith)
    | inr e ↦ rw e (
        turn-IsRound (left r sid tame l) (ready_rows r (look r l).engine) (look r l) refl
          (left-look r sid tame l))
  ]

  Ends : Loop → Loop × Stop → Type 0
  Ends l (l', stop) =
      (stop ≢ out_of_fuel)
      × (stop ≡ drained → ready_rows r l'.engine ≡ [])
      × (l'.batch_count ≤ suc (l.batch_count + left r sid tame l))

  proceed-Ends :
      (l : Loop) (out : Loop × Option Stop) (next : Loop → Loop × Stop)
      → IsRound (left r sid tame l) l.batch_count out
      → ((l' : Loop) → left r sid tame l' < left r sid tame l → Ends l' (next l'))
      → Ends l (proceed r sid out next)
  unfolding IsRound Ends
  proceed-Ends l (l', some stop) next g h =
      (λ f. g.1 (ap some f), λ f. g.2 (ap some f), omega (arith, g.3))
  proceed-Ends l (l', none) next g h =
      let less = g.0 refl in
      let later = h l' less in (later.0, later.1, omega (arith, later.2, less, g.3))

  batch_loop-Ends :
      (fuel : ℕ) (l : Loop) → left r sid tame l < fuel → Ends l (batch_loop r sid fuel l)
  unfolding batch_loop IsRound
  batch_loop-Ends zero l h = absurd (omega arith)
  batch_loop-Ends (suc fuel) l h =
      proceed-Ends l (round r sid l) (batch_loop r sid fuel) (round-IsRound l)
        (λ l' less. batch_loop-Ends fuel l' (omega (arith, less)))

  Ends-close :
      (l : Loop) (out : Loop × Stop)
      → Ends l out
      → ((close_loop r sid out).1 ≢ out_of_fuel)
        × ((close_loop r sid out).1 ≡ drained → ready_rows r out.0.engine ≡ [])
        × ((close_loop r sid out).0.batch_count ≤ suc (l.batch_count + left r sid tame l))
  unfolding Ends
  Ends-close l (l', pause_requested) h = h
  Ends-close l (l', cost_exceeded) h = h
  Ends-close l (l', threshold_reached) h = h
  Ends-close l (l', drained) h = h
  Ends-close l (l', out_of_fuel) h = h

-- As long as others keep the ids of the project's deliverables, take no counted retry back, make none
-- wait that was not waiting, and leave a failed one failed or count a retry of it: the batch loop ends
-- within one round more than the deliverables have attempts left, it starts at most one batch more
-- than that, and where it ends without an interruption no deliverable was ready.
pub execute_batch_loop-ends :
    (r : Run) (sid : String)
    → ((tick : ℕ) (e : Engine) → AllTame (project_rows r e) (project_rows r (r.outside tick e)))
    → (fuel tick : ℕ) (e : Engine) → all_attempts r.retry_limit (project_rows r e) < fuel
    → let (l, stop) = execute_batch_loop r sid fuel tick e in
      (stop ≢ out_of_fuel)
      × (stop ≡ drained → ready_rows r (batch_loop r sid fuel (start r sid tick e)).0.engine ≡ [])
      × (l.batch_count ≤ suc (all_attempts r.retry_limit (project_rows r e)))
unfolding execute_batch_loop left
execute_batch_loop-ends r sid tame fuel tick e h =
    let begin = start r sid tick e in
    let closed = Ends-close r sid tame begin _ (batch_loop-Ends r sid tame fuel begin h) in
    (closed.0, closed.1, omega (arith, closed.2))
