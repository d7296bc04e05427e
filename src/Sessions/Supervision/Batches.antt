-- ===== src/Sessions/Supervision/Batches.antt =====
-- A batch whose deliverables have all been checkpointed passes the batch verification.
use auto_builder.Base.{
  String, true, false, List, [], ◌∷◌, ◌≡◌, refl, inl, inr, ◌==◌, arith, eq_iff, Bool-cases, All,
  All-map, ap,
}
use auto_builder.Model.Values.{
  Value, bool, text, list, dict, Items, nil, cons, Fields, end, State, get, has, truthy, is_text,
}
use auto_builder.Sessions.State.{put, get-put, has-put, status_key}
use auto_builder.Workflows.Validators.Quiet.{begins_other}
use auto_builder.Sessions.Supervision.{
  get_or, status_of_output, checkpoint_project, is_terminal_text, batch_result, all_terminal,
  verify_batch_completion,
}

-- A pipeline runs for a deliverable, with any output, and is checkpointed.
abbrev pub run_pipeline : String × Value → State → State
run_pipeline (did, output) state =
    checkpoint_project
      (put "pipeline_output" output (put "current_deliverable_id" (text did) state))

unfoldable pub run_pipelines : List (String × Value) → State → State
run_pipelines [] state = state
run_pipelines (run ∷ runs) state = run_pipelines runs (run_pipeline run state)

unfoldable pub ids_in : List (String × Value) → Items
ids_in [] = nil
ids_in (run ∷ runs) = cons (text run.0) (ids_in runs)

-- The state has a final status for the deliverable.
abbrev IsFinal : String → State → Type 0
IsFinal did state =
    (has state (status_key did) ≡ true)
    × ((s : String) × (get state (status_key did) ≡ text s) × (is_terminal_text s ≡ true))

put-IsFinal :
    (did key : String) (v : Value) (state : State)
    → (key == status_key did) ≡ false
    → IsFinal did state
    → IsFinal did (put key v state)
put-IsFinal did key v state other h = (
  ground (arith, has-put key (status_key did) v state, other, h.0),
  (h.1.0, rw (get-put key (status_key did) v state, other) h.1.1, h.1.2),
)

put-IsFinal_status :
    (did key s : String) (state : State)
    → is_terminal_text s ≡ true
    → IsFinal did state
    → IsFinal did (put key (text s) state)
put-IsFinal_status did key s state final h = elim (Bool-cases (key == status_key did)) [
  | inr other ↦ put-IsFinal did key (text s) state other h
  | inl same ↦ (
    ground (arith, has-put key (status_key did) (text s) state, same),
    (s, rw (get-put key (status_key did) (text s) state, same) refl, final),
  )
]

status_of_output-final : (v : Value) → is_terminal_text (status_of_output v) ≡ true
status_of_output-final (dict output) = elim (Bool-cases (truthy (get output "failed"))) [
  | inl e ↦ rw e refl
  | inr e ↦ rw e refl
]
status_of_output-final _ = refl

output_apart : (did : String) → ("pipeline_output" == status_key did) ≡ false
output_apart did =
    begins_other "p" "d" "ipeline_output" "eliverable_status:" did (λ h. omega (arith, h))

id_apart : (did : String) → ("current_deliverable_id" == status_key did) ≡ false
id_apart did =
    begins_other "c" "d" "urrent_deliverable_id" "eliverable_status:" did (λ h. omega (arith, h))

batch_apart : (did : String) → ("current_batch_deliverables" == status_key did) ≡ false
batch_apart did =
    begins_other "c" "d" "urrent_batch_deliverables" "eliverable_status:" did
      (λ h. omega (arith, h))

abbrev prepared : String → Value → State → State
prepared did output state =
    put "pipeline_output" output (put "current_deliverable_id" (text did) state)

id_of_prepared :
    (did : String) (output : Value) (state : State)
    → get_or (text "") "current_deliverable_id" (prepared did output state) ≡ text did
id_of_prepared did output state =
    let inner = put "current_deliverable_id" (text did) state in
    ground (
      arith,
      has-put "pipeline_output" "current_deliverable_id" output inner,
      get-put "pipeline_output" "current_deliverable_id" output inner,
      has-put "current_deliverable_id" "current_deliverable_id" (text did) state,
      get-put "current_deliverable_id" "current_deliverable_id" (text did) state,
    )

-- A run that is checkpointed writes the status of its output, and nothing but that.
run_at :
    (did : String) (output : Value) (state : State)
    → is_text did ≡ true
    → run_pipeline (did, output) state
      ≡ put
          (status_key did)
          (text
            (status_of_output (get_or (dict end) "pipeline_output" (prepared did output state))))
          (prepared did output state)
unfolding checkpoint_project
run_at did output state named = rw (id_of_prepared did output state, named) refl

run_pipeline-IsFinal :
    (did other : String) (output : Value) (state : State)
    → is_text did ≡ true
    → IsFinal other state
    → IsFinal other (run_pipeline (did, output) state)
run_pipeline-IsFinal did other output state named h = rw (run_at did output state named) (
    put-IsFinal_status other (status_key did) _ (prepared did output state)
      (status_of_output-final (get_or (dict end) "pipeline_output" (prepared did output state)))
      (put-IsFinal other "pipeline_output" output _ (output_apart other)
        (put-IsFinal other "current_deliverable_id" (text did) state (id_apart other) h)))

run_pipeline-own :
    (did : String) (output : Value) (state : State)
    → is_text did ≡ true
    → IsFinal did (run_pipeline (did, output) state)
run_pipeline-own did output state named =
    let same : (status_key did == status_key did) ≡ true = (eq_iff _ _).1 refl in
    let s = status_of_output (get_or (dict end) "pipeline_output" (prepared did output state)) in
    rw (run_at did output state named) (
      ground (
        arith,
        has-put (status_key did) (status_key did) (text s) (prepared did output state),
        same,
      ),
      (
        s,
        rw (get-put (status_key did) (status_key did) (text s) (prepared did output state), same)
            refl,
        status_of_output-final (get_or (dict end) "pipeline_output" (prepared did output state)),
      ),
    )

abbrev pub IsNamed : List (String × Value) → Type 0
IsNamed = All (λ run. is_text run.0 ≡ true)

run_pipelines-IsFinal :
    (runs : List (String × Value)) (other : String) (state : State)
    → IsNamed runs
    → IsFinal other state
    → IsFinal other (run_pipelines runs state)
unfolding run_pipelines
run_pipelines-IsFinal [] other state named h = h
run_pipelines-IsFinal ((did, output) ∷ runs) other state named h =
    run_pipelines-IsFinal runs other (run_pipeline (did, output) state) named.1
      (run_pipeline-IsFinal did other output state named.0 h)

run_pipelines-All :
    (runs : List (String × Value)) (state : State)
    → IsNamed runs
    → All (λ run. IsFinal run.0 (run_pipelines runs state)) runs
unfolding run_pipelines
run_pipelines-All [] state named = tt
run_pipelines-All ((did, output) ∷ runs) state named = (
  run_pipelines-IsFinal runs did (run_pipeline (did, output) state) named.1
      (run_pipeline-own did output state named.0),
  run_pipelines-All runs (run_pipeline (did, output) state) named.1,
)

module _ (show : Value → String) where
  all_terminal-final :
      (runs : List (String × Value)) (state : State)
      → All (λ run. IsFinal run.0 state) runs
      → all_terminal show state (ids_in runs) ≡ true
  unfolding all_terminal ids_in
  all_terminal-final [] state h = refl
  all_terminal-final (run ∷ runs) state h =
      rw (h.0.0, h.0.1.1, h.0.1.2, all_terminal-final runs state h.1) refl

  -- After a pipeline has run and been checkpointed for each deliverable of a batch, with whatever
  -- output, the batch verification of the batch says that all are terminal.
  verify_batch_completion-checkpointed :
      (runs : List (String × Value)) (state : State)
      → IsNamed runs
      → (results : Fields) × (get
            (verify_batch_completion show
              (put "current_batch_deliverables" (list (ids_in runs)) (run_pipelines runs state)))
            "batch_result"
          ≡ dict results)
        × (get results "all_terminal" ≡ bool true)
  unfolding verify_batch_completion get
  verify_batch_completion-checkpointed runs state named =
      let last = run_pipelines runs state in
      let st = put "current_batch_deliverables" (list (ids_in runs)) last in
      let asked : get_or (list nil) "current_batch_deliverables" st ≡ list (ids_in runs) = ground (
        arith,
        has-put "current_batch_deliverables" "current_batch_deliverables" (list (ids_in runs)) last,
        get-put "current_batch_deliverables" "current_batch_deliverables" (list (ids_in runs)) last,
      ) in
      let final : All (λ run. IsFinal run.0 st) runs =
        All-map runs
          (λ run h.
            put-IsFinal run.0 "current_batch_deliverables" (list (ids_in runs)) last
              (batch_apart run.0) h)
          (run_pipelines-All runs state named) in
      (
        batch_result show st (ids_in runs),
        rw
            (
              asked,
              get-put "batch_result" "batch_result" (dict (batch_result show st (ids_in runs))) st,
            )
            refl,
        ap bool (all_terminal-final runs st final),
      )
