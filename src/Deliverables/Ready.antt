-- ===== src/Deliverables/Ready.antt =====
-- Batch selection: select_ready_batch of tools/management.py, and the same computation inside
-- _execute_batch_loop of workers/tasks.py, which has another retry limit. `all_deliverables` is the
-- result of the query on the project.
pub mod Contents
use Prim.Native.String.compare
use Prim.Native.String.{compare}
use text.Mathlib.Text.{is_le}
use auto_builder.Base.{
  ℕ, zero, suc, ◌+◌, String, Option, none, some, Bool, true, false, List, [], ◌∷◌, map, select, not,
  ltb, nat_eq, ◌&&◌, ◌||◌, if◌then◌else◌, elem, length, sort_by,
}
use auto_builder.Model.{
  DeliverableStatus, failed, is_satisfied, is_waiting, same_deliverable_status,
}
use auto_builder.Model.Rows.{Deliverable}

abbrev pub max_deliverable_retries : ℕ
max_deliverable_retries = 3

abbrev pub ids : List Deliverable → List String
ids = map (λ (d : Deliverable). d.id)

-- The ids of the completed and skipped ones.
unfoldable pub satisfied : List Deliverable → List String
unfolding select
satisfied all = ids (select (λ d. is_satisfied d.status) all)

abbrev pub is_actionable : ℕ → Deliverable → Bool
is_actionable limit d =
    is_waiting d.status || (same_deliverable_status d.status failed && ltb d.retry_count limit)

-- The entry of `in_degree` for a deliverable; the dictionary is keyed by the primary key.
unfoldable pub in_degree : List String → List String → ℕ
in_degree done [] = 0
in_degree done (dep ∷ deps) = let n = in_degree done deps in if elem dep done then n else suc n

abbrev pub order_of : Deliverable → ℕ
order_of d = elim d.execution_order [ none ↦ 0 | some n ↦ n ]

-- `(execution_order or 0, str(id))`, compared as a tuple.
abbrev pub before : Deliverable → Deliverable → Bool
before a b =
    ltb (order_of a) (order_of b) || (nat_eq (order_of a) (order_of b) && is_le (compare a.id b.id))

-- `frontier.sort(key=…)`
unfoldable pub sort : List Deliverable → List Deliverable
unfolding sort_by
sort = sort_by before

abbrev pub is_ready : ℕ → List Deliverable → Deliverable → Bool
is_ready limit all d = nat_eq (in_degree (satisfied all) d.depends_on) 0

unfoldable pub select_ready : ℕ → List Deliverable → List Deliverable
unfolding satisfied in_degree
select_ready limit all = sort (select (is_ready limit all) (select (is_actionable limit) all))

pub record ReadyBatch : Type 0 where
  pub batch : List Deliverable
  pub total_ready : ℕ
  pub total_remaining : ℕ

unfoldable pub select_ready_batch : List Deliverable → ReadyBatch
unfolding select_ready
select_ready_batch [] = record { batch = []; total_ready = 0; total_remaining = 0 }
select_ready_batch (d ∷ ds) =
    let all : List Deliverable = d ∷ ds in
    let frontier = select_ready max_deliverable_retries all in
    record {
      batch = frontier;
      total_ready = length frontier;
      total_remaining = length (select (λ e. not (is_satisfied e.status)) all);
    }
