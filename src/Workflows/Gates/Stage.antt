-- ===== src/Workflows/Gates/Stage.antt =====
-- The stage gate passes exactly if each of its conditions holds.
use auto_builder.Base.{
  String, Bool, true, false, none, some, List, [], ◌∷◌, ◌++◌, ◌≡◌, refl, ◌↔◌, ◌⊎◌, inl, inr, All,
  arith, Bool-cases, ltb, Option-cases, if◌then◌else◌,
}
use auto_builder.Model.Values.{Value, null, dict, Fields, end, field, State, get, truthy, is_none}
use auto_builder.Workflows.Manifest.{StageDef, ValidatorDefinition, ValidatorResult}
use auto_builder.Workflows.Gates.{
  no_statuses, not_completed, is_outstanding, outstanding, check_deliverable_statuses, find_stage,
  last_result, judge, validator_failures, deliverable_failures, is_auto, approval_key,
  approval_failures, is_required, stage_failures, verify_stage_completion, asks_deliverables,
  statuses_of,
}

pub append-nil_iff : {A : Type 0} (xs ys : List A) → (xs ++ ys ≡ []) ↔ ((xs ≡ []) × (ys ≡ []))
append-nil_iff [] ys = (λ h. (refl, h), λ h. h.1)
append-nil_iff (x ∷ xs) ys = (λ h. cc, λ h. cc h.0)

-- The last result under the name passed.
abbrev pub HasPassed : List ValidatorResult → String → Type 0
HasPassed results name =
    (r : ValidatorResult) × (last_result name results ≡ some r) × (r.passed ≡ true)

judge_iff :
    (name : String) (results : List ValidatorResult)
    → (judge name (last_result name results) ≡ []) ↔ HasPassed results name
judge_iff name results = elim (Option-cases (last_result name results)) [
  | inl e ↦ rw e (λ h. cc, λ h. cc (h.1))
  | inr (r, e) ↦ rw e (λ h. (r, refl, ground arith), λ h. ground arith)
]

pub validator_failures_iff :
    (counts : ValidatorDefinition → Bool) (vs : List ValidatorDefinition)
    (results : List ValidatorResult)
    → (validator_failures counts vs results ≡ [])
      ↔ All (λ v. counts v ≡ true → HasPassed results v.name) vs
unfolding validator_failures
validator_failures_iff counts [] results = (λ h. tt, λ h. refl)
validator_failures_iff counts (v ∷ vs) results = elim (Bool-cases (counts v)) [
  | inr e ↦ rw e (
    λ h. (λ c. cc, (validator_failures_iff counts vs results).0 h),
    λ h. (validator_failures_iff counts vs results).1 h.1,
  )
  | inl e ↦ rw e (
    λ h.
        let parts = (append-nil_iff _ _).0 h in
        (
          λ c. (judge_iff v.name results).0 parts.0,
          (validator_failures_iff counts vs results).0 parts.1,
        ),
    λ h.
        (append-nil_iff _ _).1 (
          (judge_iff v.name results).1 (h.0 refl),
          (validator_failures_iff counts vs results).1 h.1,
        ),
  )
]

-- Every status is COMPLETED, FAILED or SKIPPED.
abbrev pub IsSettled : Fields → Type 0
IsSettled end = Unit
IsSettled (field k v fs) = (is_outstanding v ≡ false) × IsSettled fs

outstanding_iff : (fs : Fields) → (outstanding fs ≡ 0) ↔ IsSettled fs
unfolding outstanding
outstanding_iff end = (λ h. tt, λ h. refl)
outstanding_iff (field k v fs) = elim (Bool-cases (is_outstanding v)) [
  | inl e ↦ rw e (λ h. absurd (omega arith), λ h. cc h.0)
  | inr e ↦ rw e (λ h. (refl, (outstanding_iff fs).0 h), λ h. (outstanding_iff fs).1 h.1)
]

-- The state holds a set of statuses, and all are settled.
abbrev pub AllSettled : State → Type 0
AllSettled state = (fs : Fields) × (get state "deliverable_statuses" ≡ dict fs) × IsSettled fs

statuses_iff :
    (v : Value)
    → ((if is_none v
          then no_statuses ∷ []
          else let (all_done, open_count) = statuses_of v in
            if all_done then [] else not_completed open_count ∷ [])
        ≡ [])
      ↔ ((fs : Fields) × (v ≡ dict fs) × IsSettled fs)
statuses_iff (dict fs) = elim (Bool-cases (ltb 0 (outstanding fs))) [
  | inl e ↦ rw e (λ h. cc, λ (gs, same, settled). absurd (below fs gs same settled e))
  | inr e ↦ rw e (λ h. (fs, refl, (outstanding_iff fs).0 (ground arith)), λ h. refl)
]
  where
    below : (fs gs : Fields) → dict fs ≡ dict gs → IsSettled gs → ltb 0 (outstanding fs) ≡ true → ⊥
    below fs gs same settled e =
        let f : fs ≡ gs = cc in
        let z : outstanding fs ≡ 0 = rw f ((outstanding_iff gs).1 settled) in ground arith
statuses_iff null = (λ h. cc, λ h. cc h.1)
statuses_iff _ = (λ h. cc, λ h. cc h.1)

pub deliverable_failures_iff :
    (state : State) → (deliverable_failures state ≡ []) ↔ AllSettled state
unfolding deliverable_failures check_deliverable_statuses
deliverable_failures_iff state = statuses_iff (get state "deliverable_statuses")

-- What the gate asks of the stage.
abbrev pub StageSpec : State → List ValidatorResult → StageDef → Type 0
StageSpec state results s =
    All (λ v. is_required v ≡ true → HasPassed results v.name) s.validators
    × AllSettled state
    × ((is_auto s.approval ≡ true) ⊎ (truthy (get state (approval_key s.name)) ≡ true))

approval_iff :
    (state : State) (s : StageDef)
    → (approval_failures state s ≡ [])
      ↔ ((is_auto s.approval ≡ true) ⊎ (truthy (get state (approval_key s.name)) ≡ true))
unfolding approval_failures
approval_iff state s = elim (Bool-cases (is_auto s.approval)) [
  | inl e ↦ rw e (λ h. inl refl, λ h. refl)
  | inr e ↦ elim (Bool-cases (truthy (get state (approval_key s.name)))) [
    | inl t ↦ rw (e, t) (λ h. inr refl, λ h. refl)
    | inr t ↦ rw (e, t) (λ h. cc, elim [ inl bad ↦ cc | inr bad ↦ cc ])
  ]
]

asked :
    (state : State) (s : StageDef)
    → (if asks_deliverables s.completion_criteria then deliverable_failures state else [])
      ≡ deliverable_failures state
asked state s = ground arith

stage_failures_iff :
    (state : State) (results : List ValidatorResult) (s : StageDef)
    → (stage_failures state results s ≡ []) ↔ StageSpec state results s
unfolding stage_failures
stage_failures_iff state results s = rw asked (
  λ h.
      let a = (append-nil_iff _ _).0 h in
      let b = (append-nil_iff _ _).0 a.1 in
      (
        (validator_failures_iff is_required s.validators results).0 a.0,
        (deliverable_failures_iff state).0 b.0,
        (approval_iff state s).0 b.1,
      ),
  λ h. (append-nil_iff _ _).1 (
    (validator_failures_iff is_required s.validators results).1 h.0,
    (append-nil_iff _ _).1 ((deliverable_failures_iff state).1 h.1, (approval_iff state s).1 h.2),
  ),
)

pub find_stage-null : (stages : List StageDef) → find_stage stages null ≡ none
unfolding find_stage
find_stage-null [] = refl
find_stage-null (s ∷ stages) = find_stage-null stages

pub null-of_is_none : (v : Value) → is_none v ≡ true → v ≡ null
null-of_is_none null h = refl
null-of_is_none _ h = cc

-- The stage gate of a workflow with stages passes exactly if the current stage is one of them, the
-- last result of each of its required validators is there and passed, all deliverable statuses are
-- there and COMPLETED, FAILED or SKIPPED, and the stage is approved or needs no approval.
pub verify_stage_completion_iff :
    (state : State) (first : StageDef) (rest : List StageDef) (results : List ValidatorResult)
    → (verify_stage_completion state (first ∷ rest) results ≡ []) ↔ (
        (s : StageDef) × (find_stage (first ∷ rest) (get state "pm:current_stage") ≡ some s)
        × StageSpec state results s)
unfolding verify_stage_completion
verify_stage_completion_iff state first rest results =
    elim (Bool-cases (is_none (get state "pm:current_stage"))) [
      | inl e ↦
          let absent = null-of_is_none (get state "pm:current_stage") e in
          rw absent (λ h. cc, λ (s, found, _). cc (found, find_stage-null (first ∷ rest)))
      | inr e ↦ elim (Option-cases (find_stage (first ∷ rest) (get state "pm:current_stage"))) [
        | inl unknown ↦ rw (e, unknown) (λ h. cc, λ (s, found, _). cc)
        | inr (s, known) ↦
            rw (e, known)
              (
                λ h. (s, refl, (stage_failures_iff state results s).0 h),
                λ (t, same, spec).
                    let st : s ≡ t = cc in rw st ((stage_failures_iff state results t).1 spec),
              )
      ]
    ]
