-- ===== src/Workflows/Dependencies.antt =====
-- dependency_validation of workflows/validators.py: Kahn's algorithm on the graph that the session's
-- state holds. Python starts its queue in a set's order and the model in the graph's; the order of
-- the sorted nodes is evidence, which is not modelled.
use auto_builder.Base.{
  ℕ, zero, suc, ◌+◌, ◌-◌, String, Bool, true, false, Option, none, some, List, [], ◌∷◌, ◌++◌, map,
  any, not, if◌then◌else◌, elem, nat_eq, length, Dict, lookup, insert,
}
use auto_builder.Model.Values.{
  Value, null, text, list, dict, Items, nil, cons, Fields, end, field, State, get,
}
use auto_builder.Workflows.Manifest.{ValidatorResult}

-- `[item for item in raw if isinstance(item, str)]`
unfoldable pub texts : Items → List String
texts nil = []
texts (cons (text s) vs) = s ∷ texts vs
texts (cons _ vs) = texts vs

-- The dependencies of a node; a value that is not a list has none.
abbrev pub deps_of : Value → List String
deps_of (list vs) = texts vs
deps_of _ = []

unfoldable pub nodes : Fields → List String
nodes end = []
nodes (field k _ fs) = k ∷ nodes fs

-- All dependencies of all nodes, in order.
unfoldable pub all_deps : Fields → List String
unfolding texts
all_deps end = []
all_deps (field _ v fs) = deps_of v ++ all_deps fs

unfoldable pub has_invalid_refs : Fields → Bool
unfolding any all_deps nodes elem
has_invalid_refs graph = any (λ dep. not (elem dep (nodes graph))) (all_deps graph)

-- `in_degree[dep] += 1`, where the key is there.
unfoldable pub count_up : List String → Dict ℕ → Dict ℕ
unfolding lookup insert
count_up [] degrees = degrees
count_up (dep ∷ deps) degrees =
    count_up deps
      (elim (lookup dep degrees) [ none ↦ degrees | some n ↦ insert dep (n + 1) degrees ])

abbrev pub initial_degrees : Fields → Dict ℕ
initial_degrees graph = count_up (all_deps graph) (map (λ n. (n, 0)) (nodes graph))

-- The degrees and the queue.
pub record Frontier : Type 0 where
  pub degrees : Dict ℕ
  pub queue : List String

abbrev pub lower_found : String → Option ℕ → Frontier → Frontier
lower_found dep none f = f
lower_found dep (some n) f = record {
  degrees = insert dep (n - 1) f.degrees;
  queue = if nat_eq (n - 1) 0 then f.queue ++ dep ∷ [] else f.queue;
}

-- `in_degree[dep] -= 1`, for each dependency of the node; at 0 it enters the queue. A degree counts
-- the edges that are not taken yet, so it is not 0 before.
unfoldable pub lower : List String → Frontier → Frontier
unfolding lookup insert
lower [] f = f
lower (dep ∷ deps) f = lower deps (lower_found dep (lookup dep f.degrees) f)

abbrev pub popped : Frontier → List String → Frontier
popped f rest = record { degrees = f.degrees; queue = rest }

-- `while queue`, on fuel: the nodes in the order in which they leave the queue.
unfoldable pub sorted_nodes : Fields → ℕ → Frontier → List String
unfolding lower get
sorted_nodes graph zero f = []
sorted_nodes graph (suc fuel) f = elim f.queue [
  | [] ↦ []
  | node ∷ rest ↦ node ∷ sorted_nodes graph fuel (lower (deps_of (get graph node)) (popped f rest))
]

abbrev pub free_nodes : Dict ℕ → List String
free_nodes [] = []
free_nodes ((n, degree) ∷ ds) =
    let rest = free_nodes ds in if nat_eq degree 0 then n ∷ rest else rest

-- A node enters the queue once, when its degree falls to 0.
unfoldable pub has_cycle : Fields → Bool
unfolding sorted_nodes count_up all_deps nodes
has_cycle graph =
    let degrees = initial_degrees graph in
    let start : Frontier = record { degrees = degrees; queue = free_nodes degrees } in
    not (nat_eq (length (sorted_nodes graph (length (nodes graph)) start)) (length (nodes graph)))

abbrev pub about_dependencies : Bool → String → ValidatorResult
about_dependencies passed message = record {
  validator_name = "dependency_validation";
  passed = passed;
  message = message;
}

-- The messages name the nodes and the references; here they do not.
abbrev pub graph_verdict : Bool → Bool → ValidatorResult
graph_verdict false false = about_dependencies true ""
graph_verdict true false = about_dependencies false "Cycle detected"
graph_verdict false true = about_dependencies false "Invalid references"
graph_verdict true true = about_dependencies false "Cycle detected; Invalid references"

abbrev pub order_verdict : Value → ValidatorResult
order_verdict null = about_dependencies false "No dependency graph or order found in state"
order_verdict (list order) = about_dependencies true ""
order_verdict _ = about_dependencies false "Dependency order is not a list"

abbrev pub dependency_verdict : Value → Value → ValidatorResult
dependency_verdict null order = order_verdict order
dependency_verdict (dict graph) order = graph_verdict (has_cycle graph) (has_invalid_refs graph)
dependency_verdict _ order = about_dependencies false "Dependency graph is not a dict"

unfoldable pub dependency_validation : State → ValidatorResult
unfolding has_cycle has_invalid_refs get
dependency_validation state =
    dependency_verdict (get state "dependency_graph") (get state "dependency_order")
