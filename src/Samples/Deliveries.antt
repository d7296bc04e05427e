-- ===== src/Samples/Deliveries.antt =====
-- Sample runs on the deliverables of a project: `a` is completed, `b` and `c` wait on it and on
-- each other, `d` has failed for good, `e` waits on `d`, and `f` on `e`.
use auto_builder.Base.{
  ℕ, String, Option, none, some, true, List, [], ◌∷◌, ◌≡◌, refl, ◌↔◌, ◌+◌, All, elem, IsIn, ltb,
  if◌then◌else◌, arith, select, lookup, insert,
}
use Prim.Native.Nat.{min}
use auto_builder.Model.{DeliverableStatus, planned, pending, completed, failed, in_progress}
use auto_builder.Model.Rows.{Deliverable}
use auto_builder.Deliverables.Ready.{is_actionable, select_ready, satisfied}
use auto_builder.Deliverables.Ready.Contents.{IsMet, select_ready_iff}
use auto_builder.Deliverables.Update.{find_row, parse_status, update_deliverable}
use auto_builder.Deliverables.Update.Finality.{
  Request, update_all, Effect, update_all_final, update_deliverable-Effect,
}
use auto_builder.Deliverables.Failure.{
  blocked_ids, stuck_ids, is_other, handle_deliverable_failure, retry, exhausted,
}
use auto_builder.Deliverables.Failure.Reached.Found.{Downstream}
use auto_builder.Deliverables.Failure.Reached.{blocked_ids_iff}
use auto_builder.Deliverables.Failure.Stuck.{Stuck, stuck_ids_iff}
use auto_builder.Deliverables.Failure.Budget.{failures, failures-retry_count}
use auto_builder.Deliverables.Graph.{adjacency, targets, detect_cycle, cycle, acyclic}
use auto_builder.Deliverables.Graph.Manage.{add, manage_dependencies}
use auto_builder.Deliverables.Graph.Acyclic.{IsAcyclic}
use auto_builder.Deliverables.Graph.Edits.{graph}
use auto_builder.Deliverables.Graph.Preserved.{manage_dependencies-IsAcyclic}
use auto_builder.Deliverables.Graph.Cycle.{Reaches, detect_cycle_iff}

abbrev row : String → DeliverableStatus → List String → ℕ → Deliverable
row id status depends_on retry_count = record {
  id = id;
  project_id = some "p";
  name = id;
  status = status;
  depends_on = depends_on;
  retry_count = retry_count;
  execution_order = none;
  updated_at = 0;
}

abbrev a : Deliverable
a = row "a" completed [] 0

abbrev b : Deliverable
b = row "b" planned ("a" ∷ []) 0

abbrev rows : List Deliverable
rows =
    a
    ∷ b
    ∷ row "c" pending ("a" ∷ "b" ∷ []) 0
    ∷ row "d" failed [] 2
    ∷ row "e" planned ("d" ∷ []) 0
    ∷ row "f" planned ("e" ∷ []) 0
    ∷ []

select_ready_iff_example :
    IsIn b (select_ready 2 rows)
    ↔ (IsIn b rows × (is_actionable 2 b ≡ true) × All (IsMet rows) b.depends_on)
select_ready_iff_example = select_ready_iff 2 rows b

blocked_ids_iff_example :
    (elem "f" (blocked_ids "d" rows) ≡ true) ↔ Downstream (is_other "d") rows ("d" ∷ []) "f"
blocked_ids_iff_example = blocked_ids_iff "d" rows "f"

stuck_ids_iff_example : (elem "f" (stuck_ids 2 rows) ≡ true) ↔ Stuck 2 rows "f"
stuck_ids_iff_example = stuck_ids_iff 2 rows "f"

-- `f` is skipped, though it does not depend on `d` itself.
f_skipped : elem "f" (stuck_ids 2 rows) ≡ true
unfolding stuck_ids elem satisfied
f_skipped = refl

failures-retry_count_example :
    (d' : Deliverable) × (find_row "b" (failures 2 7 "b" 2 rows) ≡ some d')
    × (d'.retry_count ≡ min 2 (0 + 2))
    × ((handle_deliverable_failure 7 "b" 2 (failures 2 7 "b" 2 rows)).1
        ≡ (if ltb (0 + 2) 2 then retry else exhausted))
unfolding find_row
failures-retry_count_example = failures-retry_count 2 7 2 "b" rows b refl (omega arith)

-- A dependency of `a` on `c` would close a cycle, since `c` depends on `a` already.
detect_cycle_iff_example :
    ((detect_cycle rows "a" "c" ≡ cycle) ↔ Reaches (adjacency rows []) "c" "a")
    × ((detect_cycle rows "a" "c" ≡ acyclic) ↔ (¬ Reaches (adjacency rows []) "c" "a"))
detect_cycle_iff_example = detect_cycle_iff rows "a" "c"

closes_cycle : detect_cycle rows "a" "c" ≡ cycle
unfolding detect_cycle
closes_cycle = refl

abbrev reset_requests : List Request
reset_requests =
    record { now = 8; deliverable_id = "a"; status = "PENDING" }
    ∷ record { now = 9; deliverable_id = "b"; status = "IN_PROGRESS" }
    ∷ record { now = 9; deliverable_id = "a"; status = "no status" }
    ∷ []

abbrev as_it_is : String → Option String
as_it_is s = some s

update_all_final_example : find_row "a" (update_all as_it_is reset_requests rows) ≡ some a
unfolding find_row
update_all_final_example = update_all_final as_it_is "a" a refl reset_requests rows refl

update_deliverable-Effect_example :
    Effect 9 "d" in_progress rows
      (find_row "d" rows)
      (update_deliverable as_it_is 9 "d" "IN_PROGRESS" rows)
unfolding parse_status
update_deliverable-Effect_example =
    update_deliverable-Effect as_it_is 9 "d" "IN_PROGRESS" "d" in_progress rows refl refl

-- Two deliverables that depend on nothing.
abbrev pair : List Deliverable
pair = a ∷ row "b" planned [] 0 ∷ []

no_edges : (x : String) → targets (graph (some "p") pair) x ≡ []
unfolding targets adjacency select lookup insert
no_edges x = ground arith

manage_dependencies-IsAcyclic_example :
    IsAcyclic (graph (some "p") (manage_dependencies as_it_is add "b" (some "a") pair).0)
unfolding elem
manage_dependencies-IsAcyclic_example =
    manage_dependencies-IsAcyclic as_it_is add "b" (some "a") (some "p") pair (refl, (refl, tt))
      refl (λ x y e. let none_there = no_edges x in cc (rw none_there at e))

abbrev turned : List String
turned = "b" ∷ "a" ∷ []
