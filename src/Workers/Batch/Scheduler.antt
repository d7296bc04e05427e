-- ===== src/Workers/Batch/Scheduler.antt =====
-- An abstract scheduler for the batch loop of workers/tasks.py: what may happen to the rows of the
-- deliverables.
use auto_builder.Base.{ℕ, String, Bool, true, false, List, [], ◌∷◌, ◌≡◌, ◌↔◌, select, All, IsIn}
use auto_builder.Model.Rows.{Deliverable}
use auto_builder.Deliverables.Update.{is_of_project}
use auto_builder.Deliverables.Ready.{is_actionable}
use auto_builder.Deliverables.Ready.Contents.{IsMet}
use auto_builder.Workers.State.{Engine, Run}
use auto_builder.Workers.Batch.{mark, skip_in_project}

-- The table, the deliverables of the batch that are still to be taken, and whether the scheduler has found
-- nothing ready.
pub record Board : Type 0 where
  pub rows : List Deliverable
  pub open_batch : List Deliverable
  pub is_drained : Bool

-- The deliverable is the project's, it may be tried, and its dependencies are met.
abbrev pub IsReadyIn : Run → List Deliverable → Deliverable → Type 0
IsReadyIn r rows d =
    let own = select (is_of_project r.project_id) rows in
    IsIn d own × (is_actionable r.retry_limit d ≡ true) × All (IsMet own) d.depends_on

-- Others change the rows at any time. A batch is chosen, of all the ready deliverables and no others, when
-- none is open; the next of the batch is taken; the scheduler is drained when nothing is open or ready, and
-- from then on only the stuck ones of the rows as they then are can be skipped.
pub data Move (r : Run) (sid : String) : Board → Board → Type 0 where
  others :
      (tick : ℕ) (e : Engine) (open_batch : List Deliverable) (is_drained : Bool)
      → Move r sid
          (record { rows = e.world.deliverables; open_batch = open_batch; is_drained = is_drained })
          (record {
            rows = (r.outside tick e).world.deliverables;
            open_batch = open_batch;
            is_drained = is_drained;
          })
  choose :
      (rows batch : List Deliverable)
      → ((d : Deliverable) → IsIn d batch ↔ IsReadyIn r rows d)
      → Move r sid
          (record { rows = rows; open_batch = []; is_drained = false })
          (record { rows = rows; open_batch = batch; is_drained = false })
  take :
      (rows : List Deliverable) (d : Deliverable) (batch : List Deliverable)
      → Move r sid
          (record { rows = rows; open_batch = d ∷ batch; is_drained = false })
          (record { rows = mark r.now d.id rows; open_batch = batch; is_drained = false })
  drain :
      (rows : List Deliverable)
      → ((d : Deliverable) → IsReadyIn r rows d → ⊥)
      → Move r sid
          (record { rows = rows; open_batch = []; is_drained = false })
          (record { rows = rows; open_batch = []; is_drained = true })
  skip :
      (rows : List Deliverable)
      → Move r sid
          (record { rows = rows; open_batch = []; is_drained = true })
          (record { rows = skip_in_project r sid rows; open_batch = []; is_drained = true })

pub data Moves (r : Run) (sid : String) (s : Board) : Board → Type 0 where
  here : Moves r sid s s
  next : {t u : Board} → Moves r sid s t → Move r sid t u → Moves r sid s u
