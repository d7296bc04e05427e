-- ===== src/Workers/Stages/Approval.antt =====
-- The stage's gate in the stage loop of workers/tasks.py.
use auto_builder.Base.{String, false, List, [], ◌∷◌, ◌≡◌, ◌≢◌, refl, some, inl, inr, arith}
use auto_builder.Model.Values.{null, text, get}
use auto_builder.Workflows.Manifest.{StageDef, ValidatorResult}
use auto_builder.Workflows.Validators.Quiet.{begins_other}
use auto_builder.Workflows.Gates.{find_stage, verify_stage_completion, is_auto, approval_key}
use auto_builder.Workflows.Gates.Stage.{verify_stage_completion_iff}
use auto_builder.Workers.State.{Engine, Run}
use auto_builder.Workers.Stages.{stage_state}

approval-null :
    (r : Run) (name : String) (e : Engine) (n : String)
    → get (stage_state r name e) (approval_key n) ≡ null
unfolding get stage_state
approval-null r name e n =
    rw
      (
        begins_other "p" "a" "m:current_stage" "pproval:stage:" n (λ h. omega (arith, h)),
        begins_other "d" "a" "eliverable_statuses" "pproval:stage:" n (λ h. omega (arith, h)),
      )
      refl

-- The stage's gate, on the state that the loop hands it, refuses every stage of the manifest that
-- needs an approval, whatever the validators' results: the state holds none. The loop only logs it.
stage_gate-approval :
    (r : Run) (s : StageDef) (e : Engine) (results : List ValidatorResult)
    → find_stage r.manifest.stages (text s.name) ≡ some s
    → is_auto s.approval ≡ false
    → verify_stage_completion (stage_state r s.name e) r.manifest.stages results ≢ []
unfolding stage_state get find_stage
stage_gate-approval r s e results known needed passed = go r.manifest.stages known passed
  where
    go :
        (stages : List StageDef)
        → find_stage stages (text s.name) ≡ some s
        → verify_stage_completion (stage_state r s.name e) stages results ≡ []
        → ⊥
    go [] k h = cc
    go (first ∷ rest) k h =
        let spec = (verify_stage_completion_iff (stage_state r s.name e) first rest results).0 h in
        let same : spec.0 ≡ s = cc (k, spec.1) in
        elim spec.2.2 [
          | inl auto_ ↦ let bad = rw same at auto_ in cc
          | inr given ↦ let bad = rw (same, approval-null r s.name e s.name) at given in cc
        ]
