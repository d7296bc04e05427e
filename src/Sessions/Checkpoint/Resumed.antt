-- ===== src/Sessions/Checkpoint/Resumed.antt =====
-- A checkpoint of agents/supervision.py and a recreation from it.
use auto_builder.Base.{
  String, true, false, some, ◌≡◌, refl, ◌∙◌, ap, inl, inr, ◌==◌, any, eq_iff, Bool-cases,
}
use auto_builder.Model.Values.{Value, list, dict, nil, Fields, end, field, State, get, has}
use auto_builder.Sessions.State.{is_prefix, is_suffix, same_codes}
use auto_builder.Sessions.Supervision.{get_or}
use auto_builder.Sessions.Recreation.{is_critical, taskgroup_seed}
use auto_builder.Sessions.Recreation.Seeds.{newest, get-taskgroup_seed}
use auto_builder.Sessions.Checkpoint.{snapshot}

-- No critical key that the state has gets another value from the fields.
IsAgreeing : State → Fields → Type 0
IsAgreeing state fs =
    (key : String)
    → is_critical key ≡ true
    → has state key ≡ true
    → newest state (some fs) key ≡ get state key

IsAgreeing-field :
    (state : State) (k : String) (v : Value) (fs : Fields)
    → (is_critical k ≡ true → has state k ≡ true → v ≡ get state k)
    → IsAgreeing state fs
    → IsAgreeing state (field k v fs)
unfolding get has IsAgreeing
IsAgreeing-field state k v fs same rest key critical there = elim (Bool-cases (k == key)) [
  | inr other ↦ rw other (rest key critical there)
  | inl here ↦
      let e = (eq_iff k key).0 here in
      rw here (same (rw e critical) (rw e there) ∙ ap (λ x. get state x) e)
]

other :
    (state : State) (k : String) (v : Value) (fs : Fields)
    → is_critical k ≡ false
    → IsAgreeing state fs
    → IsAgreeing state (field k v fs)
unfolding IsAgreeing
other state k v fs not_critical rest = IsAgreeing-field state k v fs (λ c t. cc) rest

get_or-there :
    (default : Value) (key : String) (state : State)
    → has state key ≡ true
    → get_or default key state ≡ get state key
get_or-there default key state there = rw there refl

nothing : (state : State) → IsAgreeing state end
unfolding IsAgreeing get has
nothing state key critical there = refl

snapshot-IsAgreeing :
    (taskgroup_execution_id : String) (state : State)
    → IsAgreeing state (snapshot taskgroup_execution_id state)
unfolding snapshot is_critical any is_prefix is_suffix same_codes
snapshot-IsAgreeing taskgroup_execution_id state = other state "deliverable_statuses" _ _ refl (
    other state "stage_progress" _ _ refl (
      other state "accumulated_cost" _ _ refl (
        IsAgreeing-field state "loaded_skill_names" _ _
          (λ c t. get_or-there (list nil) "loaded_skill_names" state t)
          (IsAgreeing-field state "workflow_id" _ _ (λ c t. refl)
            (other state "completed_stages" _ _ refl (
              other state "current_taskgroup_id" _ _ refl (
                IsAgreeing-field state "project_config" _ _
                  (λ c t. get_or-there (dict end) "project_config" state t) (nothing state))))))))

-- What is recreated from a task group's checkpoint of a session has every critical key of the session,
-- with its value.
pub taskgroup_seed-snapshot :
    (taskgroup_execution_id : String) (state : State) (key : String)
    → is_critical key ≡ true
    → has state key ≡ true
    → get (taskgroup_seed state (some (snapshot taskgroup_execution_id state))) key ≡ get state key
unfolding snapshot has IsAgreeing
taskgroup_seed-snapshot taskgroup_execution_id state key critical there =
    get-taskgroup_seed state (some (snapshot taskgroup_execution_id state)) key
      (refl, (refl, (refl, (refl, (refl, (refl, (refl, (refl, tt))))))))
    ∙ rw critical (snapshot-IsAgreeing taskgroup_execution_id state key critical there)
