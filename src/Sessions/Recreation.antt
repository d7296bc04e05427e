-- ===== src/Sessions/Recreation.antt =====
-- agents/context_recreation.py: a fresh session with the critical keys of an old one. `store` is the
-- session service, by session id, and `new_id` the fresh UUID. The memory service is never used.
pub mod Seeds
pub mod Outcomes
use auto_builder.Base.{
  ℕ, String, Option, none, some, Bool, true, false, List, [], ◌∷◌, ◌++◌, map, not, ◌==◌, ◌&&◌, ◌||◌,
  if◌then◌else◌, any, elem, select, Dict, lookup, insert,
}
use auto_builder.Model.Values.{Value, Fields, end, State, get, has, is_none}
use auto_builder.Sessions.State.{put, keys, merge, starts_with, ends_with, sort_texts}

abbrev pub critical_key_prefixes : List String
critical_key_prefixes =
    "deliverable_status:" ∷ "pm:" ∷ "director:" ∷ "project_config" ∷ "workflow_id"
    ∷ "loaded_skill_names" ∷ []

abbrev pub output_key_suffixes : List String
output_key_suffixes = "_output" ∷ "_result" ∷ "_response" ∷ []

abbrev pub checkpoint_seed_keys : List String
checkpoint_seed_keys =
    "completed_stages" ∷ "loaded_skill_names" ∷ "deliverable_statuses" ∷ "stage_progress"
    ∷ "accumulated_cost" ∷ "workflow_id" ∷ "current_taskgroup_id" ∷ []

unfoldable pub is_critical : String → Bool
unfolding any
is_critical key =
    any (starts_with key) critical_key_prefixes || any (ends_with key) output_key_suffixes

unfoldable pub identify_critical_keys : State → List String
unfolding is_critical keys sort_texts select
identify_critical_keys state = sort_texts (select is_critical (keys state))

-- {k: old_state[k] for k in names}
unfoldable pub restrict : List String → State → State
unfolding put
restrict [] state = end
restrict (k ∷ names) state = put k (get state k) (restrict names state)

unfoldable pub seed_critical_keys : State → State
unfolding identify_critical_keys restrict
seed_critical_keys state = restrict (identify_critical_keys state) state

-- The loop over _CHECKPOINT_SEED_KEYS.
unfoldable pub add_missing : List String → State → State → State
unfolding put has
add_missing [] merged seeded = seeded
add_missing (k ∷ names) merged seeded =
    add_missing names merged
      (if has merged k && not (has seeded k) then put k (get merged k) seeded else seeded)

-- The stages whose key has a value, in a stage -> key mapping.
unfoldable pub inferred : State → Dict String → List String
inferred state [] = []
inferred state ((stage, key) ∷ completion_keys) =
    let rest = inferred state completion_keys in
    if is_none (get state key) then rest else stage ∷ rest

abbrev pub completed_set : Option (List String) → State → Option (Dict String) → List String
completed_set (some stages) state completion_keys = stages
completed_set none state none = []
completed_set none state (some completion_keys) = inferred state completion_keys

unfoldable pub determine_remaining_stages :
    List String → Option (List String) → State → Option (Dict String) → List String
unfolding select elem inferred
determine_remaining_stages all completed state completion_keys =
    select (λ s. not (elem s (completed_set completed state completion_keys))) all

pub data RecreationEvent : Type 0 where
  started completed_as failed : (session_id : String) → RecreationEvent

pub record RecreationResult : Type 0 where
  pub new_session_id : String
  pub remaining_stages : List String
  pub seeded_keys : List String

-- WorkerError, or the result.
pub data Recreated : Type 0 where
  not_found stages_required : Recreated
  ok : RecreationResult → Recreated

pub record Sessions : Type 0 where
  pub store : Dict State
  pub events : List RecreationEvent

abbrev pub tell : RecreationEvent → Sessions → Sessions
tell e s = record s { events = s.events ++ e ∷ [] }

abbrev pub create_fresh_session : String → State → Sessions → Sessions
create_fresh_session new_id seed s = record s { store = insert new_id seed s.store }

abbrev pub result_of : String → State → List String → RecreationResult
result_of new_id seed remaining = record {
  new_session_id = new_id;
  remaining_stages = remaining;
  seeded_keys = sort_texts (keys seed);
}

-- `{**old_state, **checkpoint_data}`, with no data where there is no checkpoint.
abbrev pub merged_state : State → Option State → State
merged_state state none = state
merged_state state (some checkpoint) = merge state checkpoint

unfoldable pub taskgroup_seed : State → Option State → State
unfolding seed_critical_keys add_missing merge
taskgroup_seed state checkpoint =
    let merged = merged_state state checkpoint in
    add_missing checkpoint_seed_keys merged (seed_critical_keys merged)

module _ (new_id : String) (completed : Option (List String))
    (completion_keys : Option (Dict String)) where
  -- The session is created before the stages are asked for.
  abbrev pub rebuilt : String → State → Option (List String) → Sessions → Sessions × Recreated
  rebuilt old_id state none s = (
    tell (failed old_id) (create_fresh_session new_id (seed_critical_keys state) s),
    stages_required,
  )
  rebuilt old_id state (some stages) s = (
    tell (completed_as new_id) (create_fresh_session new_id (seed_critical_keys state) s),
    ok (
        result_of new_id (seed_critical_keys state)
          (determine_remaining_stages stages completed state completion_keys)),
  )

  abbrev pub from_old :
      String → Option (List String) → Option State → Sessions → Sessions × Recreated
  from_old old_id stages none s = (tell (failed old_id) s, not_found)
  from_old old_id stages (some state) s = rebuilt old_id state stages s

  unfoldable pub recreate_context : String → Option (List String) → Sessions → Sessions × Recreated
  unfolding seed_critical_keys determine_remaining_stages lookup insert sort_texts keys
  recreate_context old_id stages s =
      from_old old_id stages (lookup old_id s.store) (tell (started old_id) s)

  abbrev pub remaining_of : Option (List String) → State → List String
  remaining_of none merged = []
  remaining_of (some stages) merged =
      determine_remaining_stages stages completed merged completion_keys

  -- For a publisher and a workflow id that are given.
  unfoldable pub recreate_context_at_taskgroup :
      String → State → Option State → Option (List String) → Sessions → Sessions × RecreationResult
  unfolding taskgroup_seed determine_remaining_stages sort_texts keys insert
  recreate_context_at_taskgroup old_id state checkpoint stages s =
      let seed = taskgroup_seed state checkpoint in
      (
        tell (completed_as new_id) (create_fresh_session new_id seed (tell (started old_id) s)),
        result_of new_id seed (remaining_of stages (merged_state state checkpoint)),
      )
