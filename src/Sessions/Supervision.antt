-- ===== src/Sessions/Supervision.antt =====
-- The callbacks of agents/supervision.py on a session's state. `show` is Python's `str` on a value
-- that is no text. An amount of money is a number of ten-thousandths.
pub mod Batches
use Prim.Native.String
use auto_builder.Base.{
  ℕ, zero, suc, ◌+◌, String, Option, none, some, Bool, true, false, List, [], ◌∷◌, leb, ◌==◌, ◌&&◌,
  ◌||◌, if◌then◌else◌,
}
use auto_builder.Model.Values.{
  Value, null, bool, int, text, list, dict, Items, nil, cons, Fields, end, field, State, get, has,
  truthy, is_text, count_items,
}
use auto_builder.Sessions.State.{put, status_key, starts_with}

-- state.get(key, default)
abbrev pub get_or : Value → String → State → Value
get_or default key state = if has state key then get state key else default

-- The number that a value is; `bool` is an `int`.
abbrev pub number_of : Value → Option ℕ
number_of (int n) = some n
number_of (bool true) = some 1
number_of (bool false) = some 0
number_of _ = none

-- Both are numbers, and the first has reached the second.
abbrev pub reaches : Option ℕ → Option ℕ → Bool
reaches (some current) (some limit) = leb limit current
reaches _ _ = false

abbrev pub config_of : Value → Fields
config_of (dict config) = config
config_of _ = end

pub data PmVerdict : Type 0 where
  allowed cost_blocked retries_blocked : PmVerdict

-- `describe` is the text of a limit that is reached, with what was used and the limit.
module _ (describe : String → Value → Value → String) where
  unfoldable pub before_pm_execution : State → State × PmVerdict
  unfolding get has put
  before_pm_execution state =
      let config = config_of (get_or (dict end) "project_config" state) in
      let retry_budget = get_or (int 10) "retry_budget" config in
      let cost_ceiling = get_or (int 1000000) "cost_ceiling" config in
      let retries = get_or (int 0) "pm:retry_count" state in
      let cost = get_or (int 0) "pm:total_cost" state in
      if reaches (number_of cost) (number_of cost_ceiling)
      then (
        put "pm:escalation_context" (text (describe "Cost ceiling exceeded" cost cost_ceiling))
            state,
        cost_blocked,
      )
      else if reaches (number_of retries) (number_of retry_budget)
      then (
        put "pm:escalation_context" (text (describe "Retry budget exhausted" retries retry_budget))
            state,
        retries_blocked,
      )
      else (state, allowed)

-- The status that the pipeline's output stands for.
abbrev pub status_of_output : Value → String
status_of_output (dict output) = if truthy (get output "failed") then "FAILED" else "COMPLETED"
status_of_output _ = "FAILED"

abbrev pub checkpoint_as : Value → State → State
checkpoint_as (text did) state =
    if is_text did
    then put (status_key did) (text (status_of_output (get_or (dict end) "pipeline_output" state)))
        state
    else state
checkpoint_as _ state = state

unfoldable pub checkpoint_project : State → State
unfolding get has put
checkpoint_project state = checkpoint_as (get_or (text "") "current_deliverable_id" state) state

-- `str(status) in terminal_statuses`
abbrev pub is_terminal_text : String → Bool
is_terminal_text s = s == "COMPLETED" || (s == "FAILED" || s == "SKIPPED")

unfoldable pub count_status : String → Fields → ℕ
count_status s end = 0
count_status s (field _ (text t) fs) =
    let rest = count_status s fs in if t == s then suc rest else rest
count_status s (field _ _ fs) = count_status s fs

module _ (show : Value → String) where
  abbrev pub str : Value → String
  str (text s) = s
  str v = show v

  abbrev pub status_at : State → Value → String
  status_at state did = str (get_or (text "PENDING") (status_key (str did)) state)

  -- `results`, by the deliverable's text.
  unfoldable pub batch_results : State → Items → Fields
  unfolding put get has
  batch_results state nil = end
  batch_results state (cons did dids) =
      put (str did) (text (status_at state did)) (batch_results state dids)

  unfoldable pub all_terminal : State → Items → Bool
  unfolding get has
  all_terminal state nil = true
  all_terminal state (cons did dids) =
      is_terminal_text (status_at state did) && all_terminal state dids

  abbrev pub batch_result : State → Items → Fields
  batch_result state dids =
      let results = batch_results state dids in
      field "batch_id" (text (str (get_or (text "unknown") "current_batch_id" state))) (
        field "total" (int (count_items dids)) (
          field "completed" (int (count_status "COMPLETED" results)) (
            field "failed" (int (count_status "FAILED" results)) (
              field "skipped" (int (count_status "SKIPPED" results)) (
                field "deliverable_statuses" (dict results)
                  (field "all_terminal" (bool (all_terminal state dids)) end))))))

  abbrev pub verify_value : Value → State → State
  verify_value (list dids) state = put "batch_result" (dict (batch_result state dids)) state
  verify_value _ state = state

  unfoldable pub verify_batch_completion : State → State
  unfolding get has put batch_results all_terminal count_status count_items
  verify_batch_completion state =
      verify_value (get_or (list nil) "current_batch_deliverables" state) state

-- The flag that asks the Director to look at its queue; the events of the callback are not modelled.
abbrev pub flag_queue : Option ℕ → State → State
flag_queue none state = state
flag_queue (some zero) state = state
flag_queue (some (suc _)) state = put "director:queue_check_needed" (bool true) state

unfoldable pub after_pm_execution : State → State
unfolding get has put
after_pm_execution state =
    flag_queue (number_of (get_or (int 0) "director:pending_queue_count" state)) state
