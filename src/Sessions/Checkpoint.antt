-- ===== src/Sessions/Checkpoint.antt =====
-- checkpoint_taskgroup of agents/supervision.py: what it stores in a task group's checkpoint_data.
pub mod Resumed
use auto_builder.Base.{String, Bool, true, false, if◌then◌else◌}
use auto_builder.Model.Values.{
  Value, int, text, list, dict, nil, Fields, end, field, State, get, has,
}
use auto_builder.Sessions.State.{starts_with}
use auto_builder.Sessions.Supervision.{get_or}

-- {k: v for k, v in state.items() if k.startswith(prefix)}
unfoldable pub with_prefix : String → State → Fields
with_prefix prefix end = end
with_prefix prefix (field k v fs) =
    let rest = with_prefix prefix fs in if starts_with k prefix then field k v rest else rest

unfoldable pub snapshot : String → State → Fields
unfolding with_prefix get has
snapshot taskgroup_execution_id state =
    field "deliverable_statuses" (dict (with_prefix "deliverable_status:" state)) (
      field "stage_progress" (dict (with_prefix "pm:stage" state)) (
        field "accumulated_cost" (get_or (int 0) "pm:total_cost" state) (
          field "loaded_skill_names" (get_or (list nil) "loaded_skill_names" state) (
            field "workflow_id" (get state "workflow_id") (
              field "completed_stages" (get_or (list nil) "pm:stages_completed" state) (
                field "current_taskgroup_id" (text taskgroup_execution_id)
                  (field "project_config" (get_or (dict end) "project_config" state) end)))))))
