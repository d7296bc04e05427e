-- ===== src/Workflows/Reports/Layers.antt =====
-- No layer passes without evidence.
use auto_builder.Base.{
  String, Bool, true, false, List, [], ◌∷◌, ◌≡◌, refl, ◌↔◌, select, ◌==◌, ◌&&◌, elem, is_nil, all,
  All, Any, arith, eq_iff, Bool-cases, inl, inr, Any-map, All-map,
}
use auto_builder.Workflows.Reports.{
  ResultRow, pass, layer_status, load_validator_rows, is_pass, build_taskgroup_report,
  functional_validators, architectural_validators, contract_validators,
}

all_iff : {A : Type 0} (p : A → Bool) (xs : List A) → (all p xs ≡ true) ↔ All (λ x. p x ≡ true) xs
unfolding all
all_iff p [] = (λ h. tt, λ h. refl)
all_iff p (x ∷ xs) = (
  λ h. (ground arith, (all_iff p xs).0 (ground arith)),
  λ h. ground (arith, h.0, (all_iff p xs).1 h.1),
)

module _ {A : Type 0} (p : A → Bool) where
  select-found : (xs : List A) → (is_nil (select p xs) ≡ false) ↔ Any (λ x. p x ≡ true) xs
  unfolding select
  select-found [] = (λ h. cc, λ h. absurd h)
  select-found (x ∷ xs) = elim (Bool-cases (p x)) [
    | inl e ↦ rw e (λ h. inl refl, λ h. refl)
    | inr e ↦ rw e (
      λ h. inr ((select-found xs).0 h),
      elim [ inl bad ↦ cc | inr later ↦ (select-found xs).1 later ],
    )
  ]

  all-select :
      (q : A → Bool) (xs : List A)
      → (all q (select p xs) ≡ true) ↔ All (λ x. p x ≡ true → q x ≡ true) xs
  unfolding all select
  all-select q [] = (λ h. tt, λ h. refl)
  all-select q (x ∷ xs) = elim (Bool-cases (p x)) [
    | inr e ↦ rw e (λ h. (λ bad. cc, (all-select q xs).0 h), λ h. (all-select q xs).1 h.1)
    | inl e ↦ rw e (
      λ h. (λ _. ground arith, (all-select q xs).0 (ground arith)),
      λ h. ground (arith, h.0 refl, (all-select q xs).1 h.1),
    )
  ]

-- A row of the workflow in the stage, under one of the names.
abbrev pub IsOf : String → String → List String → ResultRow → Type 0
IsOf wid sid names r =
    (r.workflow_id ≡ wid) × (r.stage_execution_id ≡ sid) × (elem r.validator_name names ≡ true)

-- There is such a row, and all such rows passed.
abbrev pub IsProven : List ResultRow → String → String → List String → Type 0
IsProven table wid sid names =
    Any (IsOf wid sid names) table × All (λ r. IsOf wid sid names r → r.passed ≡ true) table

abbrev row_test : String → String → List String → ResultRow → Bool
row_test wid sid names r =
    r.workflow_id == wid && (r.stage_execution_id == sid && elem r.validator_name names)

row_test_iff :
    (wid sid : String) (names : List String) (r : ResultRow)
    → (row_test wid sid names r ≡ true) ↔ IsOf wid sid names r
row_test_iff wid sid names r = (
  λ h. ground (arith, eq_iff r.workflow_id wid, eq_iff r.stage_execution_id sid),
  λ h. ground (arith, h.0, h.1, h.2, eq_iff r.workflow_id wid, eq_iff r.stage_execution_id sid),
)

layer_status_iff :
    (rows : List ResultRow)
    → (layer_status rows ≡ pass)
      ↔ ((is_nil rows ≡ false) × (all (λ (r : ResultRow). r.passed) rows ≡ true))
unfolding layer_status
layer_status_iff [] = (λ h. cc, λ h. cc h.0)
layer_status_iff (r ∷ rows) = (λ h. ground arith, λ h. ground (arith, h.1))

loaded_iff :
    (table : List ResultRow) (wid sid : String) (names : List String)
    → (is_pass (layer_status (load_validator_rows table wid sid names)) ≡ true)
      ↔ IsProven table wid sid names
unfolding load_validator_rows
loaded_iff table wid sid names =
    let test = row_test wid sid names in
    (
      λ h.
          let s = (layer_status_iff (select test table)).0 (ground arith) in
          (
            Any-map table (λ r. (row_test_iff wid sid names r).0) ((select-found test table).0 s.0),
            All-map table (λ r k o. k ((row_test_iff wid sid names r).1 o))
                ((all-select test (λ r. r.passed) table).0 s.1),
          ),
      λ h.
          let s = (layer_status_iff (select test table)).1 (
            (select-found test table).1 (Any-map table (λ r. (row_test_iff wid sid names r).1) h.0),
            (all-select test (λ r. r.passed) table).1
                (All-map table (λ r k o. k ((row_test_iff wid sid names r).0 o)) h.1),
          ) in
          rw s,
    )

-- A task group's report says that all layers pass exactly if each of the three layers has evidence
-- from the workflow and the stage, and all of it passed: a layer without a row never passes.
pub build_taskgroup_report_iff :
    (table : List ResultRow) (wid sid : String)
    → ((build_taskgroup_report table wid sid).all_layers_pass ≡ true) ↔ (
        IsProven table wid sid functional_validators
        × IsProven table wid sid architectural_validators
        × IsProven table wid sid contract_validators)
unfolding build_taskgroup_report
build_taskgroup_report_iff table wid sid =
    let f = loaded_iff table wid sid functional_validators in
    let a = loaded_iff table wid sid architectural_validators in
    let c = loaded_iff table wid sid contract_validators in
    (
      λ h. (f.0 (ground arith), a.0 (ground arith), c.0 (ground arith)),
      λ h. ground (arith, f.1 h.0, a.1 h.1, c.1 h.2),
    )
