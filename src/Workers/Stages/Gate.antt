-- ===== src/Workers/Stages/Gate.antt =====
-- When the stage loop of workers/tasks.py closes a task group.
use auto_builder.Base.{
  String, true, false, some, List, [], ◌∷◌, ◌≡◌, refl, sym, ◌∙◌, ◌↔◌, inl, inr, All, All-map, arith,
  eq_iff, ◌==◌, Bool-cases, Option-cases, nat_eq, subst,
}
use auto_builder.Model.{DeliverableStatus, is_terminal_deliverable}
use auto_builder.Model.Rows.{Deliverable}
use auto_builder.Model.Values.{dict, text, get, State}
use auto_builder.Workflows.Manifest.{
  ValidatorDefinition, ValidatorSchedule, ValidatorResult, StageDef, per_taskgroup,
}
use auto_builder.Workflows.Validators.{evaluate, evaluate_batch, schedule_tag}
use auto_builder.Workflows.Validators.Evidence.{evaluate-name}
use auto_builder.Workflows.Validators.Quiet.{IsQuiet, begins_other, evaluate-quiet}
use auto_builder.Workflows.Gates.{
  find_stage, last_result, counts_in_taskgroup, verify_taskgroup_completion, is_outstanding,
}
use auto_builder.Workflows.Gates.Stage.{HasPassed, AllSettled, IsSettled}
use auto_builder.Workflows.Gates.Taskgroup.{verify_taskgroup_completion_iff}
use auto_builder.Workers.State.{Engine, Run, all_validators}
use auto_builder.Workers.Batch.{project_rows}
use auto_builder.Workers.Stages.{
  word, status_fields, pending_escalations, gate_state, taskgroup_gate,
}

outstanding-word :
    (s : DeliverableStatus)
    → (is_outstanding (text (word s)) ≡ false) ↔ (is_terminal_deliverable s ≡ true)
outstanding-word DeliverableStatus.pending = (λ h. cc, λ h. cc)
outstanding-word DeliverableStatus.in_progress = (λ h. cc, λ h. cc)
outstanding-word DeliverableStatus.completed = (λ h. refl, λ h. refl)
outstanding-word DeliverableStatus.failed = (λ h. refl, λ h. refl)
outstanding-word DeliverableStatus.blocked = (λ h. cc, λ h. cc)
outstanding-word DeliverableStatus.planned = (λ h. cc, λ h. cc)
outstanding-word DeliverableStatus.skipped = (λ h. refl, λ h. refl)

abbrev IsTerminal : Deliverable → Type 0
IsTerminal d = is_terminal_deliverable d.status ≡ true

IsSettled-status_fields : (ds : List Deliverable) → IsSettled (status_fields ds) ↔ All IsTerminal ds
unfolding status_fields
IsSettled-status_fields [] = (λ h. h, λ h. h)
IsSettled-status_fields (d ∷ ds) = (
  λ h. ((outstanding-word d.status).0 h.0, (IsSettled-status_fields ds).0 h.1),
  λ h. ((outstanding-word d.status).1 h.0, (IsSettled-status_fields ds).1 h.1),
)

-- What the results of the task group's validators are.
abbrev pub results_at : Run → String → Engine → List ValidatorResult
results_at r name e = evaluate_batch (all_validators r.manifest) per_taskgroup (gate_state r name e)

module _ (r : Run) (s : StageDef) (e : Engine) where
  settled_at :
      (ds : List Deliverable) (state : State)
      → get state "deliverable_statuses" ≡ dict (status_fields ds)
      → AllSettled state ↔ All IsTerminal ds
  settled_at ds state known = (
    λ (fs, same, h).
        let f : fs ≡ status_fields ds = cc in (IsSettled-status_fields ds).0 (subst IsSettled f h),
    λ h. (status_fields ds, known, (IsSettled-status_fields ds).1 h),
  )

  gate_iff :
      (stages : List StageDef)
      → find_stage stages (text s.name) ≡ some s
      → (verify_taskgroup_completion (gate_state r s.name e) stages (results_at r s.name e) ≡ [])
        ↔ (All IsTerminal (project_rows r e)
            × (pending_escalations r e ≡ 0)
            × All
                (λ v. counts_in_taskgroup v ≡ true → HasPassed (results_at r s.name e) v.name)
                s.validators)
  unfolding gate_state find_stage get
  gate_iff [] known = cc
  gate_iff (first ∷ rest) known =
      let known' : find_stage (first ∷ rest) (get (gate_state r s.name e) "pm:current_stage")
          ≡ some s =
        known in
      let spec = rw known' at (
        verify_taskgroup_completion_iff (gate_state r s.name e) first rest
          (results_at r s.name e)) in
      let settled = settled_at (project_rows r e) (gate_state r s.name e) refl in
      (
        λ h. let parts = spec.0 h in (settled.0 parts.0, parts.1, parts.2),
        λ h. spec.1 (settled.1 h.0, h.1, h.2),
      )

gate_state-IsQuiet : (r : Run) (name : String) (e : Engine) → IsQuiet (gate_state r name e)
unfolding get gate_state
gate_state-IsQuiet r name e = record {
  lint_results = refl;
  lint_passed = refl;
  test_results = refl;
  tests_passed = refl;
  regression_results = refl;
  review_passed = refl;
  integration_tests_passed = refl;
  dependency_graph = refl;
  dependency_order = refl;
  llm = λ n.
      rw
        (
          begins_other "d" "l" "eliverable_statuses" "lm_validator:" n (λ h. omega (arith, h)),
          begins_other "p" "l" "m:current_stage" "lm_validator:" n (λ h. omega (arith, h)),
          begins_other "p" "l" "m:pending_escalations" "lm_validator:" n (λ h. omega (arith, h)),
        )
        refl;
  approval = λ n.
      rw
        (
          begins_other "d" "a" "eliverable_statuses" "pproval:" n (λ h. omega (arith, h)),
          begins_other "p" "a" "m:current_stage" "pproval:" n (λ h. omega (arith, h)),
          begins_other "p" "a" "m:pending_escalations" "pproval:" n (λ h. omega (arith, h)),
        )
        refl;
}

passed_first :
    (r : Run) (name n : String) (e : Engine) (v : ValidatorDefinition) (rest : List ValidatorResult)
    → (HasPassed rest n → n ≡ "deliverable_status_check")
    → HasPassed (evaluate v (gate_state r name e) ∷ rest) n
    → n ≡ "deliverable_status_check"
unfolding last_result evaluate
passed_first r name n e v rest later h = elim (Option-cases (last_result n rest)) [
  | inr (x, found) ↦
      let h' = rw found at h in let same : x ≡ h'.0 = cc (h'.1) in later (x, found, rw same h'.2)
  | inl none_later ↦ elim (Bool-cases ((evaluate v (gate_state r name e)).validator_name == n)) [
    | inr other ↦ let bad = rw (none_later, other) at h in cc bad.1
    | inl same ↦
        let this = rw (none_later, same) at h in
        let is_n : v.name ≡ n = sym (evaluate-name v (gate_state r name e)) ∙ (eq_iff _ _).0 same in
        sym is_n
        ∙ evaluate-quiet v (gate_state r name e) (gate_state-IsQuiet r name e)
            (ground (arith, this.1, this.2))
  ]
]

-- Of the validators, on the gate's state, only the check of the statuses passes.
passed_by :
    (r : Run) (name n : String) (e : Engine) (schedule : ValidatorSchedule)
    (vs : List ValidatorDefinition)
    → HasPassed (evaluate_batch vs schedule (gate_state r name e)) n
    → n ≡ "deliverable_status_check"
unfolding evaluate_batch last_result
passed_by r name n e schedule [] h = cc h.1
passed_by r name n e schedule (v ∷ vs) h =
    elim (Bool-cases (nat_eq (schedule_tag v.schedule) (schedule_tag schedule))) [
      | inr e1 ↦ passed_by r name n e schedule vs (rw e1 at h)
      | inl e1 ↦
          passed_first r name n e v (evaluate_batch vs schedule (gate_state r name e))
            (passed_by r name n e schedule vs) (rw e1 at h)
    ]

-- A task group of a stage of the manifest closes exactly if all deliverables of the project are
-- completed, failed or skipped, the project has no pending item in the Director's queue, and each
-- validator that the gate looks at has a last result of its name, among those that were run for the
-- task group, that passed.
pub taskgroup_gate_iff :
    (r : Run) (s : StageDef) (e : Engine)
    → find_stage r.manifest.stages (text s.name) ≡ some s
    → (taskgroup_gate r s.name e ≡ []) ↔ (
        All (λ d. is_terminal_deliverable d.status ≡ true) (project_rows r e)
        × (pending_escalations r e ≡ 0)
        × All
            (λ v. counts_in_taskgroup v ≡ true → HasPassed (results_at r s.name e) v.name)
            s.validators)
unfolding taskgroup_gate
taskgroup_gate_iff r s e known = gate_iff r s e r.manifest.stages known

-- A task group closes only if its stage requires no validator, of those that run per deliverable,
-- batch or task group, but `deliverable_status_check`.
pub taskgroup_gate-required :
    (r : Run) (s : StageDef) (e : Engine)
    → find_stage r.manifest.stages (text s.name) ≡ some s
    → taskgroup_gate r s.name e ≡ []
    → All (λ v. counts_in_taskgroup v ≡ true → v.name ≡ "deliverable_status_check") s.validators
unfolding taskgroup_gate
taskgroup_gate-required r s e known closed =
    All-map s.validators
      (λ v h counts.
        passed_by r s.name v.name e per_taskgroup (all_validators r.manifest) (h counts))
      ((gate_iff r s e r.manifest.stages known).0 closed).2
