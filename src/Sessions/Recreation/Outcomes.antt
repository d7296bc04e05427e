-- ===== src/Sessions/Recreation/Outcomes.antt =====
-- What a recreation of agents/context_recreation.py leaves behind.
use auto_builder.Base.{
  String, Option, none, some, true, List, ◌≡◌, refl, ◌==◌, if◌then◌else◌, any, Dict, lookup,
  lookup-insert, arith,
}
use auto_builder.Model.Values.{State, get}
use auto_builder.Sessions.State.{status_key, starts_with-append}
use auto_builder.Sessions.Recreation.{
  is_critical, seed_critical_keys, taskgroup_seed, Sessions, not_found, stages_required, tell,
  started, from_old, recreate_context,
}
use auto_builder.Sessions.Recreation.Seeds.{newest, IsOptionalDict, get-taskgroup_seed}

-- To recreate a session from what a recreation made of it, with the same checkpoint, changes no
-- value: nothing that survives once is lost the second time.
pub taskgroup_seed-taskgroup_seed :
    (state : State) (checkpoint : Option State) (key : String)
    → IsOptionalDict checkpoint
    → get (taskgroup_seed (taskgroup_seed state checkpoint) checkpoint) key
      ≡ get (taskgroup_seed state checkpoint) key
taskgroup_seed-taskgroup_seed state none key d = ground (
  arith,
  get-taskgroup_seed (taskgroup_seed state none) none key d,
  get-taskgroup_seed state none key d,
)
taskgroup_seed-taskgroup_seed state (some checkpoint) key d = ground (
  arith,
  get-taskgroup_seed (taskgroup_seed state (some checkpoint)) (some checkpoint) key d,
  get-taskgroup_seed state (some checkpoint) key d,
)

is_critical-status_key : (did : String) → is_critical (status_key did) ≡ true
unfolding is_critical any
is_critical-status_key did = rw (starts_with-append "deliverable_status:" did) refl

-- A deliverable's status survives a recreation at a task group's boundary.
pub get-taskgroup_seed-status :
    (state : State) (checkpoint : Option State) (did : String)
    → IsOptionalDict checkpoint
    → get (taskgroup_seed state checkpoint) (status_key did)
      ≡ newest state checkpoint (status_key did)
get-taskgroup_seed-status state checkpoint did d =
    ground
      (arith, get-taskgroup_seed state checkpoint (status_key did) d, is_critical-status_key did)

module _ (new_id : String) (completed : Option (List String))
    (completion_keys : Option (Dict String)) where
  -- A session's state after a recreation: the new one is made from the old one's critical keys, and
  -- every other is as before, the old one too.
  abbrev after : Sessions → Option State → String → Option State
  after s o other = elim o [
    | none ↦ lookup other s.store
    | some state ↦ if new_id == other then some (seed_critical_keys state) else lookup other s.store
  ]

  from_old-store :
      (old_id other : String) (stages : Option (List String)) (o : Option State) (s : Sessions)
      → lookup other (from_old new_id completed completion_keys old_id stages o s).0.store
        ≡ after s o other
  from_old-store old_id other stages none s = refl
  from_old-store old_id other none (some state) s =
      lookup-insert new_id other (seed_critical_keys state) s.store
  from_old-store old_id other (some stages) (some state) s =
      lookup-insert new_id other (seed_critical_keys state) s.store

  result-errors :
      (old_id : String) (stages : Option (List String)) (o : Option State) (s : Sessions)
      → ((from_old new_id completed completion_keys old_id stages o s).1 ≡ not_found → o ≡ none)
        × ((from_old new_id completed completion_keys old_id stages o s).1 ≡ stages_required
            → stages ≡ none)
  result-errors old_id stages none s = (λ e. refl, λ e. cc)
  result-errors old_id none (some state) s = (λ e. cc, λ e. refl)
  result-errors old_id (some stages) (some state) s = (λ e. cc, λ e. cc)

  -- The recreation answers that the session is missing, or the stages, only if they are. Where the
  -- old session is there, the fresh one is stored with its critical keys, also where the stages are
  -- missing and the recreation fails; every other session is left as it was.
  recreate_context-store :
      (old_id other : String) (stages : Option (List String)) (s : Sessions)
      → let (s', answer) = recreate_context new_id completed completion_keys old_id stages s in
        (lookup other s'.store ≡ elim (lookup old_id s.store) [
          | none ↦ lookup other s.store
          | some state ↦
              if new_id == other then some (seed_critical_keys state) else lookup other s.store
        ])
        × (answer ≡ not_found → lookup old_id s.store ≡ none)
        × (answer ≡ stages_required → stages ≡ none)
  unfolding recreate_context
  recreate_context-store old_id other stages s =
      let told = tell (started old_id) s in
      let errors = result-errors old_id stages (lookup old_id s.store) told in
      (from_old-store old_id other stages (lookup old_id s.store) told, errors.0, errors.1)
