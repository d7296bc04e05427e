-- ===== src/Workers/Stages/Closed.antt =====
-- The stage loop of workers/tasks.py completes a project only when its stages are completed.
use auto_builder.Base.{
  ℕ, suc, ◌+◌, ◌≤◌, String, Option, none, some, Bool, true, false, List, [], ◌∷◌, ◌≡◌, refl, sym,
  ◌∙◌, subst, inl, inr, All, find, length, nat_eq, arith, eq_iff, Bool-cases,
}
use auto_builder.Workflows.Manifest.{StageDef}
use auto_builder.Workers.State.{StageExecution, Engine, Run}
use auto_builder.Workers.Batch.{
  Stop, pause_requested, cost_exceeded, threshold_reached, drained, out_of_fuel, execute_batch_loop,
}
use auto_builder.Workers.Batch.Invariant.{Keeps, execute_batch_loop-stage_executions}
use auto_builder.Workers.Stages.{
  Progress, is_done, is_execution_of, close_stage, run_taskgroup, run_stage, run_stages,
  execute_stage_loop, start_stage, enter_stage, next_stage, pass_gate, after_batches, finished,
  stage_loop, begin, open_taskgroup,
}
use auto_builder.Workers.Stages.Executions.{
  IsCompleted, IsOpened, Any-append_left, Any-append_last, complete_stage-IsCompleted,
  complete_stage-IsOpened, write_first-IsCompleted, write_first-IsOpened, find-IsCompleted,
}

abbrev Rows : Type 0
Rows = List StageExecution

-- What was completed is completed.
abbrev Grows : String → Rows → Rows → Type 0
Grows pid old new = (name : String) → IsCompleted pid name old → IsCompleted pid name new

module _ (r : Run) (keeps : Keeps r) where
  -- A stage that goes on is completed and counted, and what was completed stays so.
  abbrev IsRan : StageDef → Rows → ℕ → Progress × Bool → Type 0
  IsRan s old count (p, true) =
      IsCompleted r.project_id s.name p.engine.stage_executions
      × Grows r.project_id old p.engine.stage_executions
      × (p.stages_completed ≡ count + 1)
  IsRan s old count (p, false) =
      Grows r.project_id old p.engine.stage_executions × (p.stages_completed ≡ count)

  -- The stage's execution is open.
  abbrev IsRunning : StageDef → String → Rows → Rows → Type 0
  IsRunning s sid old rows = IsOpened r.project_id s.name sid rows × Grows r.project_id old rows

  pass_gate-IsRan :
      (s : StageDef) (sid tid : String) (old : Rows) (count : ℕ) (passed : Bool) (p : Progress)
      → IsRunning s sid old p.engine.stage_executions
      → p.stages_completed ≡ count
      → IsRan s old count (pass_gate r s sid tid passed p)
  unfolding close_stage
  pass_gate-IsRan s sid tid old count false p h c = (h.1, c)
  pass_gate-IsRan s sid tid old count true p h c = (
    complete_stage-IsOpened r.now r.project_id s.name sid _ h.0,
    λ name done. complete_stage-IsCompleted r.now r.project_id name sid _ (h.1 name done),
    omega (arith, c),
  )

  after_batches-IsRan :
      (s : StageDef) (sid tid : String) (old : Rows) (count : ℕ) (stop : Stop) (p : Progress)
      → IsRunning s sid old p.engine.stage_executions
      → p.stages_completed ≡ count
      → IsRan s old count (after_batches r s sid tid stop p)
  after_batches-IsRan s sid tid old count drained p h c =
      pass_gate-IsRan s sid tid old count _ _ h c
  after_batches-IsRan s sid tid old count pause_requested p h c = (h.1, c)
  after_batches-IsRan s sid tid old count cost_exceeded p h c = (h.1, c)
  after_batches-IsRan s sid tid old count threshold_reached p h c = (h.1, c)
  after_batches-IsRan s sid tid old count out_of_fuel p h c = (h.1, c)

  run_taskgroup-IsRan :
      (fuel : ℕ) (s : StageDef) (sid : String) (old : Rows) (p : Progress)
      → IsRunning s sid old p.engine.stage_executions
      → IsRan s old p.stages_completed (run_taskgroup r fuel s sid p)
  unfolding run_taskgroup
  run_taskgroup-IsRan fuel s sid old p h =
      let opened = open_taskgroup r (r.fresh p.tick) (p.taskgroup_counter + 1) sid p.engine in
      let out = execute_batch_loop r sid fuel (p.tick + 1) opened in
      let same =
        keeps out.0.tick out.0.engine
        ∙ execute_batch_loop-stage_executions r sid keeps fuel (p.tick + 1) opened in
      after_batches-IsRan s sid (r.fresh p.tick) old p.stages_completed out.1 _
        (subst (IsRunning s sid old) (sym same) h) refl

  start_stage-IsRan :
      (fuel index : ℕ) (s : StageDef) (p : Progress) (found : Option StageExecution)
      → find (is_execution_of r.project_id s.name) p.engine.stage_executions ≡ found
      → ((x : StageExecution) → found ≡ some x → is_done x.status ≡ false)
      → IsRan s p.engine.stage_executions p.stages_completed (start_stage r fuel index s found p)
  start_stage-IsRan fuel index s p none e open_ =
      run_taskgroup-IsRan fuel s _ p.engine.stage_executions _ (
        Any-append_last _ p.engine.stage_executions _
            (ground (arith, eq_iff r.project_id r.project_id, eq_iff s.name s.name), refl),
        λ name done. Any-append_left _ p.engine.stage_executions _ done,
      )
  start_stage-IsRan fuel index s p (some x) e open_ =
      run_taskgroup-IsRan fuel s _ p.engine.stage_executions _ (
        write_first-IsOpened r.now r.project_id s.name x p.engine.stage_executions e,
        λ name done.
            write_first-IsCompleted _ _ x r.project_id name p.engine.stage_executions e
              (open_ x refl) done,
      )

  enter_stage-IsRan :
      (fuel index : ℕ) (s : StageDef) (p : Progress) (found : Option StageExecution)
      → find (is_execution_of r.project_id s.name) p.engine.stage_executions ≡ found
      → IsRan s p.engine.stage_executions p.stages_completed (enter_stage r fuel index s found p)
  enter_stage-IsRan fuel index s p none e = start_stage-IsRan fuel index s p none e (λ x same. cc)
  enter_stage-IsRan fuel index s p (some x) e = elim (Bool-cases (is_done x.status)) [
    | inl done ↦
        rw done (
          find-IsCompleted r.project_id s.name x p.engine.stage_executions e done,
          λ name h. h,
          refl,
        )
    | inr open_ ↦ rw open_ (
        start_stage-IsRan fuel index s p (some x) e
          (λ y same. let st : x ≡ y = cc in rw st at open_))
  ]

  run_stage-IsRan :
      (fuel index : ℕ) (s : StageDef) (p : Progress)
      → IsRan s p.engine.stage_executions p.stages_completed (run_stage r fuel index s p)
  unfolding run_stage
  run_stage-IsRan fuel index s p =
      let seen : Progress = record p { engine = r.outside p.tick p.engine; tick = p.tick + 1 } in
      subst (λ rows. IsRan s rows p.stages_completed (run_stage r fuel index s p))
        (keeps p.tick p.engine) (enter_stage-IsRan fuel index s seen _ refl)

  -- At most all stages are counted, and where all are, all are completed.
  abbrev IsFinished : List StageDef → Rows → ℕ → Progress → Type 0
  IsFinished stages old count p =
      (p.stages_completed ≤ count + length stages)
      × Grows r.project_id old p.engine.stage_executions
      × (p.stages_completed ≡ count + length stages
          → All (λ s. IsCompleted r.project_id s.name p.engine.stage_executions) stages)

  next_stage-IsFinished :
      (s : StageDef) (stages : List StageDef) (old : Rows) (count : ℕ) (out : Progress × Bool)
      (rest : Progress → Progress)
      → IsRan s old count out
      → ((p : Progress) → IsFinished stages p.engine.stage_executions p.stages_completed (rest p))
      → IsFinished (s ∷ stages) old count (next_stage r out rest)
  next_stage-IsFinished s stages old count (p, false) rest h ih =
      (omega (arith, h.1), h.0, λ e. absurd (omega (arith, h.1, e)))
  next_stage-IsFinished s stages old count (p, true) rest h ih =
      let later = ih p in
      (
        omega (arith, h.2, later.0),
        λ name done. later.1 name (h.1 name done),
        λ e. (later.1 s.name h.0, later.2 (omega (arith, h.2, e))),
      )

  run_stages-IsFinished :
      (fuel index : ℕ) (stages : List StageDef) (p : Progress)
      → IsFinished stages p.engine.stage_executions p.stages_completed
          (run_stages r fuel index stages p)
  unfolding run_stages
  run_stages-IsFinished fuel index [] p = (omega arith, λ name done. done, λ e. tt)
  run_stages-IsFinished fuel index (s ∷ stages) p =
      next_stage-IsFinished s stages _ _ (run_stage r fuel index s p)
        (run_stages r fuel (suc index) stages) (run_stage-IsRan fuel index s p)
        (run_stages-IsFinished fuel (suc index) stages)

  finished-All :
      (stages : List StageDef) (old : Rows) (p : Progress)
      → IsFinished stages old 0 p
      → (finished r stages p).1 ≡ true
      → All
          (λ s. IsCompleted r.project_id s.name (finished r stages p).0.engine.stage_executions)
          stages
  finished-All stages old p h = elim (Bool-cases (nat_eq p.stages_completed (length stages))) [
    | inl e ↦ rw e (λ _. h.2 (ground arith))
    | inr e ↦ rw e (λ bad. cc)
  ]

  stage_loop-All :
      (fuel : ℕ) (stages : List StageDef) (e : Engine)
      → (stage_loop r fuel stages e).1 ≡ true
      → All
          (λ s.
            IsCompleted r.project_id s.name (stage_loop r fuel stages e).0.engine.stage_executions)
          stages
  stage_loop-All fuel [] e h = tt
  stage_loop-All fuel (s ∷ stages) e h =
      finished-All (s ∷ stages) e.stage_executions (run_stages r fuel 0 (s ∷ stages) (begin r e))
        (run_stages-IsFinished fuel 0 (s ∷ stages) (begin r e)) h

-- Where only the loop writes stage executions, it says that the project is completed only if every
-- stage of the manifest has a completed execution of the project.
pub execute_stage_loop-IsCompleted :
    (r : Run)
    → Keeps r
    → (fuel : ℕ) (e : Engine) → (execute_stage_loop r fuel e).1 ≡ true
    → All
        (λ s.
          IsCompleted r.project_id s.name (execute_stage_loop r fuel e).0.engine.stage_executions)
        r.manifest.stages
unfolding execute_stage_loop
execute_stage_loop-IsCompleted r keeps fuel e h = stage_loop-All r keeps fuel r.manifest.stages e h
