-- ===== src/Workflows/Gates/Taskgroup.antt =====
-- The task group's gate passes exactly if each of its conditions holds.
use auto_builder.Base.{
  true, Option, none, some, List, [], ◌∷◌, ◌≡◌, refl, ◌↔◌, All, arith, Bool-cases, inl, inr, ltb,
  if◌then◌else◌,
}
use auto_builder.Model.Values.{Value, State, get, is_none}
use auto_builder.Workflows.Manifest.{StageDef, ValidatorResult}
use auto_builder.Workflows.Gates.{
  find_stage, validator_failures, escalation_count, escalation_failures, counts_in_taskgroup,
  in_known_stage, verify_taskgroup_completion,
}
use auto_builder.Workflows.Gates.Stage.{
  append-nil_iff, HasPassed, AllSettled, validator_failures_iff, deliverable_failures_iff,
  find_stage-null, null-of_is_none,
}

escalation_iff : (v : Value) → (escalation_failures v ≡ []) ↔ (escalation_count v ≡ 0)
escalation_iff v = elim (Bool-cases (ltb 0 (escalation_count v))) [
  | inl e ↦ rw e (λ h. cc, λ h. absurd (ground arith))
  | inr e ↦ rw e (λ h. ground arith, λ h. refl)
]

-- What the gate asks of the validators: nothing where the current stage is not known.
abbrev pub ValidatorsSpec : List ValidatorResult → Option StageDef → Type 0
ValidatorsSpec results none = Unit
ValidatorsSpec results (some s) =
    All (λ v. counts_in_taskgroup v ≡ true → HasPassed results v.name) s.validators

known_iff :
    (results : List ValidatorResult) (o : Option StageDef)
    → (in_known_stage (λ d. validator_failures counts_in_taskgroup d.validators results) o ≡ [])
      ↔ ValidatorsSpec results o
known_iff results none = (λ h. tt, λ h. refl)
known_iff results (some s) = validator_failures_iff counts_in_taskgroup s.validators results

named_iff :
    (results : List ValidatorResult) (stages : List StageDef) (name : Value)
    → ((if is_none name
          then []
          else in_known_stage
              (λ d. validator_failures counts_in_taskgroup d.validators results)
              (find_stage stages name))
        ≡ [])
      ↔ ValidatorsSpec results (find_stage stages name)
named_iff results stages name = elim (Bool-cases (is_none name)) [
  | inr e ↦ rw e (known_iff results (find_stage stages name))
  | inl e ↦ let absent = null-of_is_none name e in rw (absent, find_stage-null) (λ h. tt, λ h. refl)
]

-- The task group's gate of a workflow with stages passes exactly if all deliverable statuses are
-- there and settled, no escalation is pending, and, where the current stage is known, the last
-- result of each of its required validators that runs per deliverable, batch or task group is there
-- and passed.
pub verify_taskgroup_completion_iff :
    (state : State) (first : StageDef) (rest : List StageDef) (results : List ValidatorResult)
    → (verify_taskgroup_completion state (first ∷ rest) results ≡ []) ↔ (
        AllSettled state
        × (escalation_count (get state "pm:pending_escalations") ≡ 0)
        × ValidatorsSpec results (find_stage (first ∷ rest) (get state "pm:current_stage")))
unfolding verify_taskgroup_completion
verify_taskgroup_completion_iff state first rest results = (
  λ h.
      let a = (append-nil_iff _ _).0 h in
      let b = (append-nil_iff _ _).0 a.1 in
      (
        (deliverable_failures_iff state).0 a.0,
        (escalation_iff (get state "pm:pending_escalations")).0 b.0,
        (named_iff results (first ∷ rest) (get state "pm:current_stage")).0 b.1,
      ),
  λ h. (append-nil_iff _ _).1 (
    (deliverable_failures_iff state).1 h.0,
    (append-nil_iff _ _).1 (
      (escalation_iff (get state "pm:pending_escalations")).1 h.1,
      (named_iff results (first ∷ rest) (get state "pm:current_stage")).1 h.2,
    ),
  ),
)
