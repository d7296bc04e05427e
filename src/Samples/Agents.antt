-- ===== src/Samples/Agents.antt =====
-- Sample runs on an agent session's state.

use auto_builder.Base.{
  select, Bool-cases, inl, inr, IsDistinct, String, Option, none, some, true, List, [], ◌∷◌, ◌≡◌,
  refl, ◌==◌, if◌then◌else◌, any, elem, All, length,
}
use auto_builder.Model.Values.{int, text, end, field, State, get, has}
use auto_builder.Agents.Resolver.{topological_sort}
use auto_builder.Agents.Review.{SubAgent, Words, run_review_cycle}
use auto_builder.Agents.Review.Rounds.{HasEnded, run_review_cycle-HasEnded}
use auto_builder.Agents.Resolver.Relaxing.{open_among, unmet}
use auto_builder.Agents.Resolver.Complete.{topological_sort_complete}
use auto_builder.Agents.Resolver.Order.{IsOrder, topological_sort-IsOrder}
use auto_builder.Model.{in_progress}
use auto_builder.Model.Rows.{Deliverable}
use auto_builder.Deliverables.Update.{find_row, parse_status}
use auto_builder.Sessions.Persist.{checkpoint_deliverable, status_raw}
use auto_builder.Sessions.Persist.Agreement.{Outcome, checkpoint_deliverable-Outcome}
use auto_builder.Sessions.State.{status_key, put, is_prefix, is_suffix, same_codes}
use auto_builder.Sessions.Recreation.{is_critical, taskgroup_seed, Sessions}
use auto_builder.Sessions.Checkpoint.{snapshot}
use auto_builder.Sessions.Checkpoint.Resumed.{taskgroup_seed-snapshot}

abbrev session : State
session = field "pm:total_cost" (int 12) (
    field "deliverable_status:a" (text "COMPLETED")
      (field "scratch" (text "draft") (field "lint_result" (text "clean") end)))

abbrev checkpoint : State
checkpoint = field "accumulated_cost" (int 12) (field "pm:total_cost" (int 13) end)

abbrev no_stages : Option (List String)
no_stages = none

abbrev store : Sessions
store = record { store = ("old", session) ∷ []; events = [] }

taskgroup_seed-snapshot_example :
    get (taskgroup_seed session (some (snapshot "g" session))) "lint_result"
    ≡ get session "lint_result"
unfolding is_critical any is_prefix is_suffix same_codes has
taskgroup_seed-snapshot_example = taskgroup_seed-snapshot "g" session "lint_result" refl refl

abbrev needs : String → List String
needs n = if n == "deploy" then "test" ∷ "build" ∷ [] else if n == "test" then "build" ∷ [] else []

abbrev tasks : List String
tasks = "deploy" ∷ "test" ∷ "build" ∷ []

abbrev order : List String
order = "build" ∷ "test" ∷ "deploy" ∷ []

topological_sort-IsOrder_example :
    IsOrder tasks needs [] order
    × All (λ n. elem n tasks ≡ true) order
    × IsDistinct order
    × (length order ≡ length tasks)
unfolding topological_sort
topological_sort-IsOrder_example =
    topological_sort-IsOrder tasks needs order (refl, (refl, (refl, tt))) refl

once : (n : String) → elem n tasks ≡ true → IsDistinct (needs n)
unfolding elem
once n known = elim (Bool-cases (n == "deploy")) [
  | inl e ↦ rw e (refl, (refl, tt))
  | inr e ↦ elim (Bool-cases (n == "test")) [ inl f ↦ rw (e, f) (refl, tt) | inr f ↦ rw (e, f) tt ]
]

topological_sort_complete_example :
    (found : List String) × (topological_sort tasks needs ≡ some found)
unfolding elem unmet open_among IsOrder select
topological_sort_complete_example =
    topological_sort_complete tasks needs order (refl, (refl, (refl, tt))) once
      (refl, (refl, (refl, tt))) (refl, (refl, (refl, tt)))

abbrev agents : List SubAgent
agents =
    record { name = "reviewer"; run = λ s. put "review_result" (text "APPROVED") s }
    ∷ record { name = "fixer"; run = λ s. s }
    ∷ []

abbrev words : Words
words = record { upper = λ s. s; within = λ s t. s == t }

run_review_cycle-HasEnded_example :
    HasEnded words agents 3 3 0 end (run_review_cycle words 3 agents end)
run_review_cycle-HasEnded_example = run_review_cycle-HasEnded words 3 agents end

abbrev done : State
done = field "current_deliverable_id" (text "a") session

abbrev rows : List Deliverable
rows =
    record {
      id = "a";
      project_id = none;
      name = "a";
      status = in_progress;
      depends_on = [];
      retry_count = 0;
      execution_order = none;
      updated_at = 0;
    }
    ∷ []

checkpoint_deliverable-Outcome_example :
    let (state', rows', reply) = checkpoint_deliverable some (λ v. "a value") 9 done rows in
    let status = status_raw some (λ v. "a value") "a" done in
    Outcome 9 "a" "a" status rows (find_row "a" rows) (parse_status status) (rows', reply)
    × (get state' (status_key "a") ≡ text status)
unfolding get
checkpoint_deliverable-Outcome_example =
    checkpoint_deliverable-Outcome some (λ v. "a value") 9 "a" "a" done rows refl refl
