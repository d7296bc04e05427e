-- ===== src/Workflows/Validators/Quiet.antt =====
-- Which validators of workflows/validators.py can pass where the agents' results are missing.
use Prim.Native.Char.{Char, code}
use Prim.Native.String
use Prim.Native.String.append
use package.text.Mathlib.TextLemmas.{head-eq_of_cons-eq}
use auto_builder.Base.{
  String, true, false, ◌≡◌, ◌≢◌, ap, ◌∙◌, inl, inr, arith, eq_iff, ◌==◌, Bool-cases,
}
use auto_builder.Model.Values.{State, null, get}
use auto_builder.Workflows.Manifest.{
  ValidatorType, deterministic, llm, approval, ValidatorDefinition,
}
use auto_builder.Workflows.Validators.{
  evaluate, evaluate_as, standard, or_unknown, lint_check, test_suite, regression_tests,
  code_review, integration_tests, deliverable_status_check,
}
use auto_builder.Workflows.Dependencies.{dependency_validation}

-- No result of an agent is in the state: none of the validators' keys but `deliverable_statuses`.
pub record IsQuiet (state : State) : Type 0 where
  pub lint_results : get state "lint_results" ≡ null
  pub lint_passed : get state "lint_passed" ≡ null
  pub test_results : get state "test_results" ≡ null
  pub tests_passed : get state "tests_passed" ≡ null
  pub regression_results : get state "regression_results" ≡ null
  pub review_passed : get state "review_passed" ≡ null
  pub integration_tests_passed : get state "integration_tests_passed" ≡ null
  pub dependency_graph : get state "dependency_graph" ≡ null
  pub dependency_order : get state "dependency_order" ≡ null
  pub llm : (name : String) → get state (String.◌++◌ "llm_validator:" name) ≡ null
  pub approval : (name : String) → get state (String.◌++◌ "approval:" name) ≡ null

-- A text that begins with another character than a prefix is no text with that prefix.
pub begins_other :
    (c d : Char) (s t n : String)
    → code c ≢ code d
    → (String.◌∷◌ c s == String.◌++◌ (String.◌∷◌ d t) n) ≡ false
begins_other c d s t n apart =
    elim (Bool-cases (String.◌∷◌ c s == String.◌++◌ (String.◌∷◌ d t) n)) [
      | inr e ↦ e
      | inl e ↦
          absurd
            (apart (ap code (head-eq_of_cons-eq ((eq_iff _ _).0 e ∙ String.append.cons d t n))))
    ]

standard-quiet :
    (n : String) (state : State)
    → IsQuiet state
    → (or_unknown n (standard n state)).passed ≡ true
    → n ≡ "deliverable_status_check"
unfolding standard lint_check test_suite regression_tests code_review integration_tests
    dependency_validation
standard-quiet n state q h = ground (
  arith,
  q.lint_results,
  q.lint_passed,
  q.test_results,
  q.tests_passed,
  q.regression_results,
  q.review_passed,
  q.integration_tests_passed,
  q.dependency_graph,
  q.dependency_order,
  eq_iff n "deliverable_status_check",
)

evaluate_as-quiet :
    (t : ValidatorType) (n : String) (state : State)
    → IsQuiet state
    → (evaluate_as t n state).passed ≡ true
    → n ≡ "deliverable_status_check"
evaluate_as-quiet deterministic n state q h = standard-quiet n state q h
evaluate_as-quiet llm n state q h = let bad = rw (q.llm n) at h in cc
evaluate_as-quiet approval n state q h = let bad = rw (q.approval n) at h in cc

-- Without the agents' results only the check of the deliverables' statuses can pass.
pub evaluate-quiet :
    (v : ValidatorDefinition) (state : State)
    → IsQuiet state
    → (evaluate v state).passed ≡ true
    → v.name ≡ "deliverable_status_check"
unfolding evaluate
evaluate-quiet v state q h = evaluate_as-quiet v.type v.name state q h

status_check-missing :
    (t : ValidatorType) (n : String) (state : State)
    → IsQuiet state
    → get state "deliverable_statuses" ≡ null
    → (evaluate_as t n state).passed ≡ true
    → ⊥
unfolding standard deliverable_status_check
status_check-missing deterministic n state q none_there h =
    let bad = rw (evaluate_as-quiet deterministic n state q h, none_there) at h in cc
status_check-missing llm n state q none_there h = let bad = rw (q.llm n) at h in cc
status_check-missing approval n state q none_there h = let bad = rw (q.approval n) at h in cc

-- Without the statuses, none can.
pub evaluate-missing :
    (v : ValidatorDefinition) (state : State)
    → IsQuiet state
    → get state "deliverable_statuses" ≡ null
    → (evaluate v state).passed ≡ false
unfolding evaluate
evaluate-missing v state q none_there = elim (Bool-cases (evaluate v state).passed) [
  | inr e ↦ e
  | inl e ↦ absurd (status_check-missing v.type v.name state q none_there e)
]
