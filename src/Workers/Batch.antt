-- ===== src/Workers/Batch.antt =====
-- _execute_batch_loop of workers/tasks.py. The runner that it is given is never called: agents work
-- on a deliverable `outside`, between its mark and the look at its status. The regression tests are
-- left out: the batch's state has no `pm:regression_policy`, so they never run.
pub mod Attempts
pub mod Ends
pub mod Invariant
pub mod Scheduler
pub mod Schedule
pub mod Unproven
use auto_builder.Base.{
  ℕ, zero, suc, ◌+◌, String, Option, none, some, Bool, true, false, List, [], ◌∷◌, ◌++◌, map,
  select, ◌==◌, ◌&&◌, ltb, if◌then◌else◌, lookup,
}
use auto_builder.Model.{
  DeliverableStatus, in_progress, completed, failed, same_deliverable_status, World, find_project,
  publish, batch_completed,
}
use auto_builder.Model.Rows.{
  Project, Deliverable, DirectorQueueItem, EscalationPriority, EscalationRequestType,
  DirectorQueueStatus,
}
use auto_builder.Model.Values.{State, text, end, field, list, Items, nil, cons}
use auto_builder.Workflows.Manifest.{ValidatorSchedule, per_deliverable, per_batch}
use auto_builder.Lifecycle.Single.{suspend_project}
use auto_builder.Deliverables.Ready.{select_ready}
use auto_builder.Deliverables.Update.{find_row, is_of_project}
use auto_builder.Deliverables.Failure.{
  BatchOutcome, ok, threshold_exceeded, track_batch_result, stuck_ids, skip_row,
}
use auto_builder.Workers.State.{Engine, Run, run_scheduled_validators}

-- Why the loop has stopped: a flag, the cost, the threshold, or nothing left that is ready.
pub data Stop : Type 0 where
  pause_requested cost_exceeded threshold_reached drained out_of_fuel : Stop

-- `tick` counts the looks at the tables.
pub record Loop : Type 0 where
  pub engine : Engine
  pub tick : ℕ
  pub batch_count : ℕ
  pub total_completed : ℕ
  pub total_failed : ℕ
  pub failures_in_row : ℕ

-- The row of a deliverable whose turn it is; a retry is counted before the status is overwritten.
unfoldable pub mark_row : ℕ → Deliverable → Deliverable
mark_row now d = if same_deliverable_status d.status in_progress then d else record d {
  status = in_progress;
  retry_count =
      if same_deliverable_status d.status failed then d.retry_count + 1 else d.retry_count;
  updated_at = now;
}

unfoldable pub mark : ℕ → String → List Deliverable → List Deliverable
unfolding mark_row
mark now did [] = []
mark now did (d ∷ ds) = (if d.id == did then mark_row now d else d) ∷ mark now did ds

abbrev pub with_deliverables : (List Deliverable → List Deliverable) → Engine → Engine
with_deliverables f e = record e {
  world = record e.world { deliverables = f e.world.deliverables };
}

abbrev pub in_world : (World → World) → Engine → Engine
in_world f e = record e { world = f e.world }

abbrev pub is_some : Option String → Bool
is_some none = false
is_some (some _) = true

unfoldable pub statuses_in : List Deliverable → List Deliverable → List (String × DeliverableStatus)
unfolding find_row
statuses_in [] rows = []
statuses_in (d ∷ ds) rows = elim (find_row d.id rows) [
  | none ↦ statuses_in ds rows
  | some row ↦ (d.id, row.status) ∷ statuses_in ds rows
]

unfoldable pub id_items : List Deliverable → Items
id_items [] = nil
id_items (d ∷ ds) = cons (text d.id) (id_items ds)

abbrev pub cost_of : Option Project → ℕ
cost_of none = 0
cost_of (some p) = p.accumulated_cost

module _ (r : Run) where
  -- A look at the tables, after what others have done.
  abbrev pub look : Loop → Loop
  look l = record l { engine = r.outside l.tick l.engine; tick = l.tick + 1 }

  unfoldable pub is_pause_requested : Engine → Bool
  unfolding lookup
  is_pause_requested e = r.has_redis && is_some (lookup r.project_id e.world.pause_flags)

  -- select(Deliverable).where(Deliverable.project_id == project_id)
  unfoldable pub project_rows : Engine → List Deliverable
  unfolding select
  project_rows e = select (is_of_project r.project_id) e.world.deliverables

  unfoldable pub ready_rows : Engine → List Deliverable
  unfolding project_rows select_ready
  ready_rows e = select_ready r.retry_limit (project_rows e)

  abbrev pub marked : String → Loop → Loop
  marked did l = record l { engine = with_deliverables (mark r.now did) l.engine }

module _ (r : Run) (sid : String) where
  abbrev pub checked : String → Loop → Loop
  checked did l = record l {
    engine =
        run_scheduled_validators r sid per_deliverable
          (field "current_deliverable_id" (text did) end) l.engine;
  }

  -- Mark the deliverable, let the agents work, and run its validators.
  unfoldable pub work_on : String → Loop → Loop
  unfolding mark
  work_on did l = checked did (look r (marked r did l))

  abbrev pub counted : Option Deliverable → ℕ → Loop → Loop × ℕ
  counted none n l = (l, n)
  counted (some row) n l =
      if same_deliverable_status row.status completed
      then (record l { total_completed = l.total_completed + 1 }, n)
      else if same_deliverable_status row.status failed
      then (record l { total_failed = l.total_failed + 1 }, n + 1)
      else (l, n)

  -- The batch's deliverables in turn: the count of failures, and whether a pause was requested.
  unfoldable pub run_batch : List Deliverable → ℕ → Loop → Loop × ℕ × Bool
  unfolding is_pause_requested work_on find_row
  run_batch [] n l = (l, n, false)
  run_batch (d ∷ ds) n l =
      let seen = look r l in
      let done = work_on d.id seen in
      let (next, n') = counted (find_row d.id done.engine.world.deliverables) n done in
      let rest = run_batch ds n' next in
      if is_pause_requested r seen.engine then (seen, n, true) else rest

  abbrev pub escalation : Loop → DirectorQueueItem
  escalation l = record {
    id = r.fresh l.tick;
    type = EscalationRequestType.resource_request;
    priority = EscalationPriority.high;
    status = DirectorQueueStatus.pending;
    title = r.cost_title r.project_id;
    source_project_id = some r.project_id;
    source_agent = none;
    context = r.describe_cost (cost_of (find_project r.project_id l.engine.world)) r.cost_ceiling;
    resolved_at = none;
    resolved_by = none;
    resolution = none;
  }

  abbrev pub escalate : Loop → Loop
  escalate l = record l {
    engine =
        in_world (λ w. record w { director_queue = w.director_queue ++ escalation l ∷ [] })
          l.engine;
  }

  abbrev pub suspend : Loop → Loop
  suspend l = record l {
    engine =
        in_world (suspend_project r.now r.project_id (r.threshold_reason r.threshold) true)
          l.engine;
  }

  -- The batch's validators, and its event.
  unfoldable pub report_batch : List Deliverable → Loop → Loop
  unfolding statuses_in id_items
  report_batch frontier l =
      let validated =
        run_scheduled_validators r sid per_batch
          (field "current_batch_deliverables" (list (id_items frontier)) end) l.engine in
      record l {
        engine =
            in_world
              (publish
                (batch_completed r.project_id (statuses_in frontier validated.world.deliverables)))
              validated;
      }

  abbrev pub judged : ℕ × BatchOutcome → Loop → Loop × Option Stop
  judged (counter, threshold_exceeded) l =
      (suspend (record l { failures_in_row = counter }), some threshold_reached)
  judged (counter, ok) l =
      let next = record l { failures_in_row = counter } in
      if ltb r.cost_ceiling (cost_of (find_project r.project_id l.engine.world))
      then (escalate next, some cost_exceeded)
      else (next, none)

  unfoldable pub after_batch : List Deliverable → ℕ → Loop → Loop × Option Stop
  unfolding report_batch track_batch_result find_project suspend_project
  after_batch frontier n l =
      judged (track_batch_result (ltb 0 n) r.threshold l.failures_in_row) (report_batch frontier l)

  abbrev pub finish_batch : List Deliverable → Loop × ℕ × Bool → Loop × Option Stop
  finish_batch frontier (l, n, true) = (l, some pause_requested)
  finish_batch frontier (l, n, false) = after_batch frontier n l

  abbrev pub begun : Loop → Loop
  begun l = record l { batch_count = l.batch_count + 1 }

  abbrev pub turn : List Deliverable → Loop → Loop × Option Stop
  turn [] l = (l, some drained)
  turn (d ∷ ds) l = finish_batch (d ∷ ds) (run_batch (d ∷ ds) 0 (begun l))

  -- One round of `while True`: a stop, or the state for the next round.
  unfoldable pub round : Loop → Loop × Option Stop
  unfolding is_pause_requested ready_rows run_batch after_batch
  round l =
      let seen = look r l in
      if is_pause_requested r seen.engine
      then (seen, some pause_requested)
      else turn (ready_rows r seen.engine) seen

  abbrev pub proceed : Loop × Option Stop → (Loop → Loop × Stop) → Loop × Stop
  proceed (l, some stop) next = (l, stop)
  proceed (l, none) next = next l

  unfoldable pub batch_loop : ℕ → Loop → Loop × Stop
  unfolding round
  batch_loop zero l = (l, out_of_fuel)
  batch_loop (suc fuel) l = proceed (round l) (batch_loop fuel)

  -- The project's waiting deliverables that depend on a failed one for good are skipped.
  unfoldable pub skip_in_project : List Deliverable → List Deliverable
  unfolding stuck_ids select
  skip_in_project rows =
      let stuck = stuck_ids r.retry_limit (select (is_of_project r.project_id) rows) in
      map (λ d. if is_of_project r.project_id d then skip_row r.now stuck d else d) rows

  -- The deliverables are read again for the skipping.
  abbrev pub close_loop : Loop × Stop → Loop × Stop
  close_loop (l, drained) =
      let seen = look r l in
      (record seen { engine = with_deliverables skip_in_project seen.engine }, drained)
  close_loop (l, stop) = (l, stop)

  abbrev pub start : ℕ → Engine → Loop
  start tick e = record {
    engine = e;
    tick = tick;
    batch_count = 0;
    total_completed = 0;
    total_failed = 0;
    failures_in_row = 0;
  }

  unfoldable pub execute_batch_loop : ℕ → ℕ → Engine → Loop × Stop
  unfolding batch_loop skip_in_project
  execute_batch_loop fuel tick e = close_loop (batch_loop fuel (start tick e))
