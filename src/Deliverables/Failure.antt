-- ===== src/Deliverables/Failure.antt =====
-- Failure handling: handle_deliverable_failure, evaluate_failure_impact and track_batch_result of
-- agents/supervision.py, and the marking of blocked deliverables at the end of
-- _execute_batch_loop in workers/tasks.py.
--
-- The two breadth-first searches are one loop, `spread`, over the ids found so far and the
-- frontier; they differ in which rows they admit and where they start. The Python set of found ids
-- is a list without duplicates, and the end of `frontier` is the head of its list here.
pub mod Reached
pub mod Stuck
pub mod Budget
use auto_builder.Base.{
  ℕ, zero, suc, ◌+◌, String, Option, none, some, Bool, true, false, List, [], ◌∷◌, ◌++◌, map,
  select, any, not, ◌==◌, ◌&&◌, ltb, leb, if◌then◌else◌, elem, length,
}
use auto_builder.Model.{
  DeliverableStatus, in_progress, failed, skipped, is_satisfied, is_waiting,
  is_terminal_deliverable, same_deliverable_status,
}
use auto_builder.Model.Rows.{Deliverable}
use auto_builder.Deliverables.Ready.{satisfied}
use auto_builder.Deliverables.Update.{find_row, write_row}

-- The texts "retry", "failed" and "error".
pub data FailureReply : Type 0 where
  retry exhausted error : FailureReply

abbrev failure_found :
    ℕ → ℕ → Option Deliverable → List Deliverable → List Deliverable × FailureReply
failure_found now retry_limit none rows = (rows, error)
failure_found now retry_limit (some d) rows =
    if ltb d.retry_count retry_limit
    then (
      write_row
          (record d { status = in_progress; retry_count = d.retry_count + 1; updated_at = now })
          rows,
      retry,
    )
    else (write_row (record d { status = failed; updated_at = now }) rows, exhausted)

unfoldable pub handle_deliverable_failure :
    ℕ → String → ℕ → List Deliverable → List Deliverable × FailureReply
handle_deliverable_failure now did retry_limit rows =
    failure_found now retry_limit (find_row did rows) rows

-- The ids found, and the frontier.
pub record Search : Type 0 where
  pub found : List String
  pub frontier : List String

-- `if found: continue; if admitted and current in d.depends_on: add it`
unfoldable pub visit : (Deliverable → Bool) → String → Deliverable → Search → Search
visit admit current d s =
    if not (elem d.id s.found) && (admit d && elem current d.depends_on)
    then record { found = d.id ∷ s.found; frontier = d.id ∷ s.frontier }
    else s

unfoldable pub sweep : (Deliverable → Bool) → String → List Deliverable → Search → Search
unfolding visit
sweep admit current [] s = s
sweep admit current (d ∷ ds) s = sweep admit current ds (visit admit current d s)

-- `while frontier`, on fuel.
unfoldable pub spread : (Deliverable → Bool) → List Deliverable → ℕ → Search → Search
unfolding sweep
spread admit rows zero s = s
spread admit rows (suc fuel) s = elim s.frontier [
  | [] ↦ s
  | current ∷ rest ↦
      spread admit rows fuel
        (sweep admit current rows (record { found = s.found; frontier = rest }))
]

-- Every id enters the frontier once.
abbrev pub enough : List Deliverable → List String → ℕ
enough rows start = length rows + length start

abbrev pub is_other : String → Deliverable → Bool
is_other failed_id d = not (d.id == failed_id)

unfoldable pub blocked_ids : String → List Deliverable → List String
unfolding spread
blocked_ids failed_id rows =
    (spread (is_other failed_id) rows (enough rows (failed_id ∷ []))
      (record { found = []; frontier = failed_id ∷ [] })).found

pub record Impact : Type 0 where
  pub blocked : List String
  pub independent : List String

-- The two lists of the reply are sorted texts; they are left in the order that they are found in.
unfoldable pub evaluate_failure_impact : String → List Deliverable → Impact
evaluate_failure_impact failed_id rows =
    let blocked = blocked_ids failed_id rows in
    record {
      blocked = blocked;
      independent =
          map (λ (d : Deliverable). d.id)
            (select
              (λ d.
                is_other failed_id d
                && (not (elem d.id blocked) && not (is_terminal_deliverable d.status)))
              rows);
    }

-- FAILED with no retry left.
abbrev pub is_permanent : ℕ → Deliverable → Bool
is_permanent retry_limit d =
    same_deliverable_status d.status failed && leb retry_limit d.retry_count

unfoldable pub permanently_failed : ℕ → List Deliverable → List String
unfolding select
permanently_failed retry_limit rows =
    map (λ (d : Deliverable). d.id) (select (is_permanent retry_limit) rows)

-- Some dependency is unsatisfied and has failed for good.
abbrev pub is_stuck : ℕ → List Deliverable → Deliverable → Bool
is_stuck retry_limit rows d =
    is_waiting d.status
    && any
        (λ dep. not (elem dep (satisfied rows)) && elem dep (permanently_failed retry_limit rows))
        d.depends_on

abbrev pub is_open : Deliverable → Bool
is_open d = is_waiting d.status

unfoldable pub stuck_seeds : ℕ → List Deliverable → List String
unfolding any permanently_failed
stuck_seeds retry_limit rows =
    map (λ (d : Deliverable). d.id) (select (is_stuck retry_limit rows) rows)

unfoldable pub stuck_ids : ℕ → List Deliverable → List String
unfolding spread stuck_seeds
stuck_ids retry_limit rows =
    let seeds = stuck_seeds retry_limit rows in
    (spread is_open rows (enough rows seeds) (record { found = seeds; frontier = seeds })).found

abbrev pub skip_row : ℕ → List String → Deliverable → Deliverable
skip_row now stuck d =
    if elem d.id stuck then record d { status = skipped; updated_at = now } else d

-- The last part of _execute_batch_loop, for a loop that was not interrupted.
unfoldable pub skip_blocked : ℕ → ℕ → List Deliverable → List Deliverable
unfolding stuck_ids
skip_blocked now retry_limit rows = map (skip_row now (stuck_ids retry_limit rows)) rows

pub data BatchOutcome : Type 0 where
  ok threshold_exceeded : BatchOutcome

abbrev pub default_batch_failure_threshold : ℕ
default_batch_failure_threshold = 3

-- The counter of the state, and the outcome.
unfoldable pub track_batch_result : Bool → ℕ → ℕ → ℕ × BatchOutcome
track_batch_result batch_had_failures threshold counter =
    let counter' = if batch_had_failures then counter + 1 else 0 in
    (counter', if leb threshold counter' then threshold_exceeded else ok)
