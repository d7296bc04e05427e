-- ===== src/Workflows/Gates.antt =====
-- The completion gates of workflows/validators.py: verify_stage_completion and
-- verify_taskgroup_completion. A failure reason is a constructor for its message.
pub mod Stage
pub mod Taskgroup
use auto_builder.Base.{
  ℕ, zero, suc, ◌+◌, String, Bool, true, false, Option, none, some, List, [], ◌∷◌, ◌++◌, not, ◌==◌,
  ◌&&◌, ◌||◌, if◌then◌else◌, is_nil, ltb,
}
use Prim.Native.String
use auto_builder.Model.Values.{
  Value, null, bool, int, text, list, dict, Items, nil, cons, Fields, end, field, State, get,
  truthy, is_none, count_items,
}
use auto_builder.Workflows.Manifest.{
  ValidatorSchedule, per_deliverable, per_batch, per_taskgroup, per_stage, StageApproval, auto,
  director, ceo, CompletionCondition, all_verified, all_deliverables_planned, ValidatorDefinition,
  ValidatorResult, StageDef,
}

pub data GateFailure : Type 0 where
  no_current_stage : GateFailure
  stage_not_found : GateFailure
  not_evaluated : (validator : String) → GateFailure
  validator_failed : (validator : String) → GateFailure
  no_statuses : GateFailure
  not_completed : (count : ℕ) → GateFailure
  not_approved : GateFailure
  escalations : (count : ℕ) → GateFailure

-- `v not in terminal`. A list or a dict there, at which Python raises a TypeError, is outstanding.
abbrev pub is_outstanding : Value → Bool
is_outstanding (text s) = not (s == "COMPLETED" || (s == "FAILED" || s == "SKIPPED"))
is_outstanding _ = true

unfoldable pub outstanding : Fields → ℕ
outstanding end = 0
outstanding (field _ v fs) =
    let rest = outstanding fs in if is_outstanding v then suc rest else rest

-- The verdict of _check_deliverable_statuses and the number of its names.
abbrev pub statuses_of : Value → Bool × ℕ
statuses_of (dict fs) = (not (ltb 0 (outstanding fs)), outstanding fs)
statuses_of _ = (false, 0)

unfoldable pub check_deliverable_statuses : State → Bool × ℕ
unfolding get outstanding
check_deliverable_statuses state = statuses_of (get state "deliverable_statuses")

-- `s.name == name`, for a name that is any value.
abbrev pub has_name : Value → StageDef → Bool
has_name (text n) s = s.name == n
has_name _ s = false

unfoldable pub find_stage : List StageDef → Value → Option StageDef
find_stage [] name = none
find_stage (s ∷ stages) name = if has_name name s then some s else find_stage stages name

-- The last result under the name.
unfoldable pub last_result : String → List ValidatorResult → Option ValidatorResult
last_result name [] = none
last_result name (r ∷ rs) = elim (last_result name rs) [
  | some later ↦ some later
  | none ↦ if r.validator_name == name then some r else none
]

abbrev pub judge : String → Option ValidatorResult → List GateFailure
judge name none = not_evaluated name ∷ []
judge name (some r) = if r.passed then [] else validator_failed name ∷ []

-- The loop over a stage's validators, at those that the gate looks at.
unfoldable pub validator_failures :
    (ValidatorDefinition → Bool)
    → List ValidatorDefinition
    → List ValidatorResult
    → List GateFailure
unfolding last_result
validator_failures counts [] results = []
validator_failures counts (v ∷ vs) results =
    let rest = validator_failures counts vs results in
    if counts v then judge v.name (last_result v.name results) ++ rest else rest

unfoldable pub deliverable_failures : State → List GateFailure
unfolding check_deliverable_statuses
deliverable_failures state =
    if is_none (get state "deliverable_statuses")
    then no_statuses ∷ []
    else let (all_done, open_count) = check_deliverable_statuses state in
      if all_done then [] else not_completed open_count ∷ []

-- Both members of CompletionCondition ask for the deliverables.
abbrev pub asks_deliverables : CompletionCondition → Bool
asks_deliverables all_verified = true
asks_deliverables all_deliverables_planned = true

abbrev pub is_auto : StageApproval → Bool
is_auto auto = true
is_auto _ = false

-- f"approval:stage:{current_stage_name}", for a name that a stage has.
abbrev pub approval_key : String → String
approval_key name = String.◌++◌ "approval:stage:" name

unfoldable pub approval_failures : State → StageDef → List GateFailure
unfolding get
approval_failures state s =
    if is_auto s.approval
    then []
    else if truthy (get state (approval_key s.name))
    then []
    else not_approved ∷ []

abbrev pub is_required : ValidatorDefinition → Bool
is_required v = v.required

unfoldable pub stage_failures : State → List ValidatorResult → StageDef → List GateFailure
unfolding validator_failures deliverable_failures approval_failures
stage_failures state results s =
    validator_failures is_required s.validators results
    ++ ((if asks_deliverables s.completion_criteria then deliverable_failures state else [])
        ++ approval_failures state s)

abbrev pub in_stage :
    (StageDef → List GateFailure) → GateFailure → Option StageDef → List GateFailure
in_stage failures absent none = absent ∷ []
in_stage failures absent (some s) = failures s

-- The list of failures; the gate passes where it is empty.
unfoldable pub verify_stage_completion :
    State → List StageDef → List ValidatorResult → List GateFailure
unfolding stage_failures find_stage
verify_stage_completion state [] results = []
verify_stage_completion state (s ∷ stages) results =
    let name = get state "pm:current_stage" in
    if is_none name
    then no_current_stage ∷ []
    else in_stage (stage_failures state results) stage_not_found (find_stage (s ∷ stages) name)

-- An `int`, which a `bool` is too, or a list.
abbrev pub escalation_count : Value → ℕ
escalation_count (int n) = n
escalation_count (bool true) = 1
escalation_count (list vs) = count_items vs
escalation_count _ = 0

abbrev pub escalation_failures : Value → List GateFailure
escalation_failures v =
    if ltb 0 (escalation_count v) then escalations (escalation_count v) ∷ [] else []

abbrev pub counts_in_taskgroup : ValidatorDefinition → Bool
counts_in_taskgroup v = v.required && elim v.schedule [ per_stage ↦ false | _ ↦ true ]

abbrev pub in_known_stage : (StageDef → List GateFailure) → Option StageDef → List GateFailure
in_known_stage failures none = []
in_known_stage failures (some s) = failures s

unfoldable pub verify_taskgroup_completion :
    State → List StageDef → List ValidatorResult → List GateFailure
unfolding deliverable_failures validator_failures find_stage count_items get
verify_taskgroup_completion state [] results = []
verify_taskgroup_completion state (s ∷ stages) results =
    let name = get state "pm:current_stage" in
    deliverable_failures state
    ++ (escalation_failures (get state "pm:pending_escalations")
        ++ (if is_none name
            then []
            else in_known_stage (λ d. validator_failures counts_in_taskgroup d.validators results)
                (find_stage (s ∷ stages) name)))
