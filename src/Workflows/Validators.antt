-- ===== src/Workflows/Validators.antt =====
-- workflows/validators.py: the standard validators, and the runner. A
-- result keeps its name, verdict and message; its evidence is not modelled.
pub mod Evidence
pub mod Quiet
use auto_builder.Base.{
  ℕ, zero, suc, ◌+◌, String, Bool, true, false, Option, none, some, List, [], ◌∷◌, not, ◌==◌, ◌&&◌,
  if◌then◌else◌, nat_eq,
}
use Prim.Native.String
use auto_builder.Model.Values.{
  Value, null, bool, int, text, list, dict, Fields, end, field, State, get, has, truthy, is_none,
  is_true,
}
use auto_builder.Workflows.Dependencies.{dependency_validation}
use auto_builder.Workflows.Manifest.{
  ValidatorType, deterministic, llm, approval, ValidatorSchedule, per_deliverable, per_batch,
  per_taskgroup, per_stage, ValidatorDefinition, ValidatorResult,
}

abbrev pub verdict : String → Bool → String → ValidatorResult
verdict name passed message = record {
  validator_name = name;
  passed = passed;
  message = if passed then "" else message;
}

abbrev pub missing : String → String → ValidatorResult
missing name message = record { validator_name = name; passed = false; message = message }

-- The fallback key, a boolean that the agent writes beside its results.
abbrev by_flag : String → String → String → Value → ValidatorResult
by_flag name failed absent flag =
    if is_none flag then missing name absent else verdict name (truthy flag) failed

abbrev by_results : String → String → String → Value → Value → ValidatorResult
by_results name failed absent (dict results) flag =
    if has results "passed"
    then verdict name (is_true (get results "passed")) failed
    else by_flag name failed absent flag
by_results name failed absent _ flag = by_flag name failed absent flag

unfoldable pub lint_check : State → ValidatorResult
unfolding get has
lint_check state =
    by_results "lint_check" "Lint check failed" "No lint results found in state"
      (get state "lint_results") (get state "lint_passed")

unfoldable pub test_suite : State → ValidatorResult
unfolding get has
test_suite state =
    by_results "test_suite" "Test suite failed" "No test results found in state"
      (get state "test_results") (get state "tests_passed")

abbrev regression_verdict : Value → ValidatorResult
regression_verdict null = missing "regression_tests" "No regression results found in state"
regression_verdict (dict results) =
    if truthy (get results "skipped")
    then record {
      validator_name = "regression_tests";
      passed = true;
      message = "Regression tests skipped";
    }
    else verdict "regression_tests" (truthy (get results "passed")) "Regression tests failed"
regression_verdict _ = missing "regression_tests" "Invalid regression results format"

unfoldable pub regression_tests : State → ValidatorResult
unfolding get
regression_tests state = regression_verdict (get state "regression_results")

unfoldable pub code_review : State → ValidatorResult
unfolding get
code_review state =
    by_flag "code_review" "Code review failed" "No review result found in state"
      (get state "review_passed")

unfoldable pub integration_tests : State → ValidatorResult
unfolding get
integration_tests state =
    by_flag "integration_tests" "Integration tests failed"
      "No integration test results found in state" (get state "integration_tests_passed")

-- `v == DeliverableStatus.COMPLETED`
abbrev pub is_completed : Value → Bool
is_completed (text s) = s == "COMPLETED"
is_completed _ = false

unfoldable pub all_completed : Fields → Bool
all_completed end = true
all_completed (field _ v fs) = is_completed v && all_completed fs

-- The message of an unfinished set counts the rest; the count is left out.
abbrev status_verdict : Value → ValidatorResult
status_verdict null = missing "deliverable_status_check" "No deliverable statuses found in state"
status_verdict (dict statuses) =
    verdict "deliverable_status_check" (all_completed statuses) "deliverables not completed"
status_verdict _ = missing "deliverable_status_check" "Invalid deliverable statuses format"

unfoldable pub deliverable_status_check : State → ValidatorResult
unfolding get all_completed
deliverable_status_check state = status_verdict (get state "deliverable_statuses")

abbrev pub or_unknown : String → Option ValidatorResult → ValidatorResult
or_unknown name none = missing name "Unknown validator"
or_unknown name (some r) = r

abbrev pub schedule_tag : ValidatorSchedule → ℕ
schedule_tag per_deliverable = 0
schedule_tag per_batch = 1
schedule_tag per_taskgroup = 2
schedule_tag per_stage = 3

-- _STANDARD_VALIDATORS
unfoldable pub standard : String → State → Option ValidatorResult
standard name state =
    if name == "lint_check"
    then some (lint_check state)
    else if name == "test_suite"
    then some (test_suite state)
    else if name == "regression_tests"
    then some (regression_tests state)
    else if name == "integration_tests"
    then some (integration_tests state)
    else if name == "code_review"
    then some (code_review state)
    else if name == "dependency_validation"
    then some (dependency_validation state)
    else if name == "deliverable_status_check"
    then some (deliverable_status_check state)
    else none

abbrev pub evaluate_as : ValidatorType → String → State → ValidatorResult
evaluate_as deterministic name state = or_unknown name (standard name state)
evaluate_as approval name state =
    verdict name (truthy (get state (String.◌++◌ "approval:" name))) "Approval not yet granted"
evaluate_as llm name state =
    let result = get state (String.◌++◌ "llm_validator:" name) in
    if is_none result
    then missing name "LLM validator has not produced results"
    else record { validator_name = name; passed = truthy result; message = "" }

unfoldable pub evaluate : ValidatorDefinition → State → ValidatorResult
unfolding standard get
evaluate v state = evaluate_as v.type v.name state

unfoldable pub evaluate_batch :
    List ValidatorDefinition → ValidatorSchedule → State → List ValidatorResult
evaluate_batch [] schedule state = []
evaluate_batch (v ∷ vs) schedule state =
    let rest = evaluate_batch vs schedule state in
    if nat_eq (schedule_tag v.schedule) (schedule_tag schedule)
    then evaluate v state ∷ rest
    else rest
