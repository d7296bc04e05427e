-- ===== src/Sessions/Recreation/Seeds.antt =====
-- What a fresh session of agents/context_recreation.py starts from.
use auto_builder.Base.{
  String, Option, none, some, false, List, [], ◌∷◌, ◌≡◌, refl, sym, inl, inr, not, ◌&&◌, ◌||◌,
  if◌then◌else◌, elem, select, arith, eq_iff, Bool-cases,
}
use auto_builder.Model.Values.{Value, null, end, field, State, get, has}
use auto_builder.Sessions.State.{
  put, get-put, has-put, keys, elem-keys, get-missing, merge, sort_texts, elem-sort_texts,
  elem-select,
}
use auto_builder.Sessions.Recreation.{
  is_critical, identify_critical_keys, restrict, seed_critical_keys, add_missing,
  checkpoint_seed_keys, merged_state, taskgroup_seed,
}

get-restrict :
    (names : List String) (state : State) (key : String)
    → get (restrict names state) key ≡ (if elem key names then get state key else null)
unfolding restrict elem get
get-restrict [] state key = refl
get-restrict (k ∷ names) state key = ground (
  arith,
  get-put k key (get state k) (restrict names state),
  get-restrict names state key,
  eq_iff k key,
)

-- A fresh session holds exactly the critical keys of the old one, with their values.
pub get-seed_critical_keys :
    (state : State) (key : String)
    → get (seed_critical_keys state) key ≡ (if is_critical key then get state key else null)
unfolding seed_critical_keys identify_critical_keys
get-seed_critical_keys state key = ground (
  arith,
  get-restrict (sort_texts (select is_critical (keys state))) state key,
  elem-sort_texts key (select is_critical (keys state)),
  elem-select is_critical key (keys state),
  elem-keys key state,
  get-missing key state,
)

-- A dictionary has a key once.
abbrev pub IsDict : State → Type 0
IsDict end = Unit
IsDict (field k _ fs) = (has fs k ≡ false) × IsDict fs

get-merge :
    (first second : State) (key : String)
    → IsDict second
    → get (merge first second) key ≡ (if has second key then get second key else get first key)
unfolding merge get has
get-merge first end key d = refl
get-merge first (field k v fs) key d =
    ground (arith, get-merge (put k v first) fs key d.1, get-put k key v first, eq_iff k key, d.0)

get-add_missing :
    (names : List String) (merged seeded : State) (key : String)
    → get (add_missing names merged seeded) key ≡ (
        if has seeded key
        then get seeded key
        else if elem key names
        then get merged key
        else get seeded key)
unfolding add_missing elem
get-add_missing [] merged seeded key = ground arith
get-add_missing (k ∷ names) merged seeded key =
    elim (Bool-cases (has merged k && not (has seeded k))) [
      | inl e ↦ rw e (
          ground (
            arith,
            get-add_missing names merged (put k (get merged k) seeded) key,
            get-put k key (get merged k) seeded,
            has-put k key (get merged k) seeded,
            eq_iff k key,
            e,
          ))
      | inr e ↦ rw e (
          ground (
            arith,
            get-add_missing names merged seeded key,
            get-missing k merged,
            get-missing k seeded,
            eq_iff k key,
            e,
          ))
    ]

has-restrict :
    (names : List String) (state : State) (key : String)
    → has (restrict names state) key ≡ elem key names
unfolding restrict elem has
has-restrict [] state key = refl
has-restrict (k ∷ names) state key =
    ground (arith, has-put k key (get state k) (restrict names state), has-restrict names state key)

has-seed_critical_keys :
    (state : State) (key : String)
    → has (seed_critical_keys state) key ≡ (is_critical key && has state key)
unfolding seed_critical_keys identify_critical_keys
has-seed_critical_keys state key = ground (
  arith,
  has-restrict (sort_texts (select is_critical (keys state))) state key,
  elem-sort_texts key (select is_critical (keys state)),
  elem-select is_critical key (keys state),
  elem-keys key state,
)

-- The value of a key in the checkpoint, or else in the session.
abbrev pub newest : State → Option State → String → Value
newest state none key = get state key
newest state (some checkpoint) key =
    if has checkpoint key then get checkpoint key else get state key

abbrev pub IsOptionalDict : Option State → Type 0
IsOptionalDict none = Unit
IsOptionalDict (some checkpoint) = IsDict checkpoint

get-merged_state :
    (state : State) (checkpoint : Option State) (key : String)
    → IsOptionalDict checkpoint
    → get (merged_state state checkpoint) key ≡ newest state checkpoint key
get-merged_state state none key d = refl
get-merged_state state (some checkpoint) key d = get-merge state checkpoint key d

get-add_critical :
    (merged : State) (key : String)
    → get (add_missing checkpoint_seed_keys merged (seed_critical_keys merged)) key
      ≡ (if is_critical key || elem key checkpoint_seed_keys then get merged key else null)
get-add_critical merged key = ground (
  arith,
  get-add_missing checkpoint_seed_keys merged (seed_critical_keys merged) key,
  has-seed_critical_keys merged key,
  get-seed_critical_keys merged key,
  get-missing key merged,
)

-- The fresh session at a task group's boundary holds, of the checkpoint and else of the old session,
-- the values of the critical keys and of the checkpoint's own keys, and nothing else.
pub get-taskgroup_seed :
    (state : State) (checkpoint : Option State) (key : String)
    → IsOptionalDict checkpoint
    → get (taskgroup_seed state checkpoint) key ≡ (
        if is_critical key || elem key checkpoint_seed_keys
        then newest state checkpoint key
        else null)
unfolding taskgroup_seed
get-taskgroup_seed state checkpoint key d =
    let merged = merged_state state checkpoint in
    rw (sym (get-merged_state state checkpoint key d)) (get-add_critical merged key)
