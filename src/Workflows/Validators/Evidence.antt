-- ===== src/Workflows/Validators/Evidence.antt =====
-- A verdict keeps its validator's name, and without evidence none passes.
use auto_builder.Base.{
  String, Bool, false, List, [], ◌∷◌, ◌≡◌, refl, arith, eq_iff, map, select, nat_eq,
}
use auto_builder.Model.Values.{Value, null, bool, int, text, list, dict, State, get}
use auto_builder.Workflows.Manifest.{
  ValidatorType, deterministic, llm, approval, ValidatorDefinition, ValidatorResult,
  ValidatorSchedule,
}
use auto_builder.Workflows.Dependencies.{
  order_verdict, graph_verdict, dependency_verdict, has_cycle, has_invalid_refs,
  dependency_validation,
}
use auto_builder.Workflows.Validators.{
  lint_check, test_suite, regression_tests, code_review, integration_tests,
  deliverable_status_check, standard, or_unknown, evaluate_as, evaluate, evaluate_batch,
  schedule_tag,
}

-- No key of the state has a value.
abbrev pub IsSilent : State → Type 0
IsSilent state = (key : String) → get state key ≡ null

order_verdict-name : (v : Value) → (order_verdict v).validator_name ≡ "dependency_validation"
order_verdict-name v = ground arith

graph_verdict-name : (a b : Bool) → (graph_verdict a b).validator_name ≡ "dependency_validation"
graph_verdict-name a b = ground arith

dependency_verdict-name :
    (g o : Value) → (dependency_verdict g o).validator_name ≡ "dependency_validation"
dependency_verdict-name null o = order_verdict-name o
dependency_verdict-name (dict g) o = graph_verdict-name (has_cycle g) (has_invalid_refs g)
dependency_verdict-name (bool _) o = refl
dependency_verdict-name (int _) o = refl
dependency_verdict-name (text _) o = refl
dependency_verdict-name (list _) o = refl

dependency_validation-name :
    (state : State) → (dependency_validation state).validator_name ≡ "dependency_validation"
unfolding dependency_validation
dependency_validation-name state =
    dependency_verdict-name (get state "dependency_graph") (get state "dependency_order")

standard-unverified :
    (name : String) (state : State)
    → IsSilent state
    → (or_unknown name (standard name state)).passed ≡ false
unfolding standard lint_check test_suite regression_tests code_review integration_tests
    deliverable_status_check dependency_validation
standard-unverified name state silent = ground (
  arith,
  silent "lint_results",
  silent "lint_passed",
  silent "test_results",
  silent "tests_passed",
  silent "regression_results",
  silent "review_passed",
  silent "integration_tests_passed",
  silent "deliverable_statuses",
  silent "dependency_graph",
  silent "dependency_order",
)

evaluate_as-unverified :
    (t : ValidatorType) (name : String) (state : State)
    → IsSilent state
    → (evaluate_as t name state).passed ≡ false
evaluate_as-unverified deterministic name state silent = standard-unverified name state silent
evaluate_as-unverified approval name state silent = rw silent refl
evaluate_as-unverified llm name state silent = rw silent refl

-- On a state with no value at any key no validator passes, of whatever type and name.
evaluate-unverified :
    (v : ValidatorDefinition) (state : State) → IsSilent state → (evaluate v state).passed ≡ false
unfolding evaluate
evaluate-unverified v state silent = evaluate_as-unverified v.type v.name state silent

evaluate_as-name :
    (t : ValidatorType) (name : String) (state : State)
    → (evaluate_as t name state).validator_name ≡ name
unfolding standard lint_check test_suite regression_tests code_review integration_tests
    deliverable_status_check
evaluate_as-name deterministic name state = ground (
  arith,
  eq_iff name "lint_check",
  eq_iff name "test_suite",
  eq_iff name "regression_tests",
  eq_iff name "integration_tests",
  eq_iff name "code_review",
  dependency_validation-name state,
  eq_iff name "dependency_validation",
  eq_iff name "deliverable_status_check",
)
evaluate_as-name approval name state = refl
evaluate_as-name llm name state = ground arith

pub evaluate-name :
    (v : ValidatorDefinition) (state : State) → (evaluate v state).validator_name ≡ v.name
unfolding evaluate
evaluate-name v state = evaluate_as-name v.type v.name state

-- The results of a schedule are those of its validators, in order and under their names.
evaluate_batch-names :
    (vs : List ValidatorDefinition) (schedule : ValidatorSchedule) (state : State)
    → map (λ (r : ValidatorResult). r.validator_name) (evaluate_batch vs schedule state)
      ≡ map
          (λ (v : ValidatorDefinition). v.name)
          (select (λ v. nat_eq (schedule_tag v.schedule) (schedule_tag schedule)) vs)
unfolding evaluate_batch evaluate select
evaluate_batch-names [] schedule state = refl
evaluate_batch-names (v ∷ vs) schedule state =
    ground (arith, evaluate_batch-names vs schedule state, evaluate_as-name v.type v.name state)
