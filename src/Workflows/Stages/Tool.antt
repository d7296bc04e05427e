-- ===== src/Workflows/Stages/Tool.antt =====
-- The tool reconfigure_stage of tools/management.py, which builds a manifest from the session's
-- stage list and hands it to the function of workflows/stages.py. `parse_stage` is
-- StageDef.model_validate, with `none` where it raises.
use auto_builder.Base.{ℕ, String, Bool, Option, none, some, List, [], ◌∷◌, ◌≡◌, refl, if◌then◌else◌}
use auto_builder.Model.Values.{Value, list, Items, nil, cons}
use auto_builder.Workflows.Manifest.{StageDef, WorkflowManifest, is_valid_manifest}
use auto_builder.Workflows.Stages.{StageState, StageResult, no_stages, advanced, reconfigure_stage}

pub data ToolResult : Type 0 where
  no_configuration raised no_op : ToolResult
  refused : StageResult → ToolResult
  moved : StageState → ToolResult

-- The reply of the tool, from the result of the domain function.
abbrev reply : StageResult → ToolResult
reply no_stages = no_op
reply (advanced s) = moved s
reply r = refused r

abbrev context_manifest : List StageDef → WorkflowManifest
context_manifest stages = record {
  name = "__tool_ctx__";
  description = "";
  stages = stages;
  validators = [];
  layers = none;
  triggers = [];
}

module _ (is_space : ℕ → Bool) (parse_stage : Value → Option StageDef) where
  abbrev parse_then : Option StageDef → Option (List StageDef) → Option (List StageDef)
  parse_then none rest = none
  parse_then (some s) none = none
  parse_then (some s) (some rest) = some (s ∷ rest)

  unfoldable pub parse_stages : Items → Option (List StageDef)
  parse_stages nil = some []
  parse_stages (cons v vs) = parse_then (parse_stage v) (parse_stages vs)

  abbrev with_stages : Option (List StageDef) → StageState → String → ToolResult
  with_stages none state target = raised
  with_stages (some stages) state target =
      if is_valid_manifest is_space (context_manifest stages)
      then reply (reconfigure_stage state stages target)
      else raised

  unfoldable pub reconfigure_stage_tool : Value → StageState → String → ToolResult
  unfolding parse_stages is_valid_manifest
  reconfigure_stage_tool (list stages) state target = with_stages (parse_stages stages) state target
  reconfigure_stage_tool _ state target = no_configuration

  with_stages-raised :
      (o : Option (List StageDef)) (state : StageState) (target : String)
      → with_stages o state target ≡ raised
  unfolding is_valid_manifest
  with_stages-raised none state target = refl
  with_stages-raised (some stages) state target = refl

  -- Whatever stages the session holds and whatever stage is asked for, the tool raises: the manifest
  -- that it builds has an empty description, which the manifest's own validation refuses.
  reconfigure_stage_tool-raised :
      (stages : Items) (state : StageState) (target : String)
      → reconfigure_stage_tool (list stages) state target ≡ raised
  unfolding reconfigure_stage_tool
  reconfigure_stage_tool-raised stages state target =
      with_stages-raised (parse_stages stages) state target
