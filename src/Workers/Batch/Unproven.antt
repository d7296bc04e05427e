-- ===== src/Workers/Batch/Unproven.antt =====
-- The validators that the batch loop of workers/tasks.py runs see no result of an agent.
use auto_builder.Base.{
  ℕ, String, false, List, [], ◌∷◌, ◌++◌, ◌≡◌, refl, All, arith, inl, inr, Bool-cases, nat_eq,
}
use auto_builder.Model.Values.{State, get}
use auto_builder.Model.Rows.{Deliverable}
use auto_builder.Workflows.Manifest.{ValidatorDefinition, ValidatorSchedule}
use auto_builder.Workflows.Validators.{evaluate, schedule_tag}
use auto_builder.Workflows.Validators.Quiet.{IsQuiet, begins_other, evaluate-missing}
use auto_builder.Workflows.Reports.{ResultRow}
use auto_builder.Workers.State.{Engine, Run, scheduled_rows, all_validators}
use auto_builder.Workers.Batch.{execute_batch_loop}
use auto_builder.Workers.Batch.Invariant.{deliverable_state, batch_state, execute_batch_loop-keeps}

deliverable_state-IsQuiet : (did : String) → IsQuiet (deliverable_state did)
unfolding get
deliverable_state-IsQuiet did = record {
  lint_results = refl;
  lint_passed = refl;
  test_results = refl;
  tests_passed = refl;
  regression_results = refl;
  review_passed = refl;
  integration_tests_passed = refl;
  dependency_graph = refl;
  dependency_order = refl;
  llm = λ n.
      rw (begins_other "c" "l" "urrent_deliverable_id" "lm_validator:" n (λ h. omega (arith, h)))
        refl;
  approval = λ n.
      rw (begins_other "c" "a" "urrent_deliverable_id" "pproval:" n (λ h. omega (arith, h))) refl;
}

batch_state-IsQuiet : (frontier : List Deliverable) → IsQuiet (batch_state frontier)
unfolding get
batch_state-IsQuiet frontier = record {
  lint_results = refl;
  lint_passed = refl;
  test_results = refl;
  tests_passed = refl;
  regression_results = refl;
  review_passed = refl;
  integration_tests_passed = refl;
  dependency_graph = refl;
  dependency_order = refl;
  llm = λ n.
      rw
        (begins_other "c" "l" "urrent_batch_deliverables" "lm_validator:" n (λ h. omega (arith, h)))
        refl;
  approval = λ n.
      rw (begins_other "c" "a" "urrent_batch_deliverables" "pproval:" n (λ h. omega (arith, h)))
        refl;
}

abbrev pub IsUnproven : List ResultRow → Type 0
IsUnproven = All (λ (row : ResultRow). row.passed ≡ false)

scheduled_rows-IsUnproven :
    (wid sid : String) (vs : List ValidatorDefinition) (schedule : ValidatorSchedule)
    (state : State)
    → ((v : ValidatorDefinition) → (evaluate v state).passed ≡ false)
    → IsUnproven (scheduled_rows wid sid vs schedule state)
unfolding scheduled_rows
scheduled_rows-IsUnproven wid sid [] schedule state fails = tt
scheduled_rows-IsUnproven wid sid (v ∷ vs) schedule state fails =
    let rest = scheduled_rows-IsUnproven wid sid vs schedule state fails in
    elim (Bool-cases (nat_eq (schedule_tag v.schedule) (schedule_tag schedule))) [
      | inl e ↦ rw e (fails v, rest)
      | inr e ↦ rw e rest
    ]

append-IsUnproven : (xs ys : List ResultRow) → IsUnproven xs → IsUnproven ys → IsUnproven (xs ++ ys)
append-IsUnproven [] ys h k = k
append-IsUnproven (x ∷ xs) ys h k = (h.0, append-IsUnproven xs ys h.1 k)

-- The validators that a batch loop runs for a deliverable or a batch never pass, of whatever type and
-- name: where no stored result passed before and others add none, none has passed after the loop.
pub execute_batch_loop-IsUnproven :
    (r : Run) (sid : String)
    → ((tick : ℕ) (e : Engine) → IsUnproven e.results → IsUnproven (r.outside tick e).results)
    → (fuel tick : ℕ) (e : Engine) → IsUnproven e.results
    → IsUnproven (execute_batch_loop r sid fuel tick e).0.engine.results
unfolding get
execute_batch_loop-IsUnproven r sid others fuel tick e h =
    execute_batch_loop-keeps r sid (λ e'. IsUnproven e'.results)
      (record {
        outside = others;
        world = λ w e' k. k;
        deliverable = λ did e' k. append-IsUnproven e'.results _ k (
            scheduled_rows-IsUnproven r.workflow_id sid (all_validators r.manifest) _ _ (λ v.
              evaluate-missing v (deliverable_state did) (deliverable_state-IsQuiet did) refl));
        batch = λ frontier e' k. append-IsUnproven e'.results _ k (
            scheduled_rows-IsUnproven r.workflow_id sid (all_validators r.manifest) _ _
              (λ v. evaluate-missing v (batch_state frontier) (batch_state-IsQuiet frontier) refl));
      })
      fuel tick e h
