-- ===== src/Workflows/Stages/Progress.antt =====
-- Stages are entered one after the other, and the completed list is the part before the current.
use auto_builder.Base.{
  ℕ, zero, suc, ◌+◌, String, true, some, List, [], ◌∷◌, ◌++◌, ◌≡◌, refl, take, elem, ltb, nat_eq,
  ◌==◌, arith, eq_iff, Bool-cases, inl, inr, ap,
}
use auto_builder.Workflows.Manifest.{StageDef}
use auto_builder.Workflows.Stages.{
  StageState, StageResult, advanced, active, stage_names, initialize_stage_state, index_of, name_at,
  complete_current, reconfigure_named, reconfigure_stage,
}

-- The current stage is the one at the index, and those before it are the completed ones, in order.
pub record IsOnTrack (names : List String) (s : StageState) : Type 0 where
  pub at_index : name_at names s.stage_index ≡ some s.current_stage
  pub completed_before : s.stages_completed ≡ take s.stage_index names

pub initialize_stage_state-IsOnTrack :
    (first : StageDef) (rest : List StageDef)
    → IsOnTrack (stage_names (first ∷ rest)) (initialize_stage_state (first ∷ rest))
unfolding initialize_stage_state name_at
initialize_stage_state-IsOnTrack first rest = record { at_index = refl; completed_before = refl }

name_at-index_of :
    (target : String) (names : List String)
    → elem target names ≡ true
    → name_at names (index_of target names) ≡ some target
unfolding name_at index_of elem
name_at-index_of target [] h = cc
name_at-index_of target (n ∷ names) h = elim (Bool-cases (n == target)) [
  | inl same ↦ rw (same, (eq_iff n target).0 same)
  | inr other ↦ rw other (name_at-index_of target names (ground arith))
]

take-suc :
    (names : List String) (i : ℕ) (n : String)
    → name_at names i ≡ some n
    → take i names ++ n ∷ [] ≡ take (suc i) names
unfolding name_at
take-suc [] i n h = ground arith
take-suc (m ∷ names) zero n h = cc
take-suc (m ∷ names) (suc i) n h = ap (λ (l : List String). m ∷ l) (take-suc names i n h)

abbrev Advances : List String → StageState → String → StageResult → Type 0
Advances names s target (advanced s') =
    IsOnTrack names s'
    × (s'.stage_index ≡ suc s.stage_index)
    × (s'.current_stage ≡ target)
    × (s'.stage_status ≡ active)
Advances names s target _ = Unit

complete_current-Advances :
    (names : List String) (s : StageState) (target : String)
    → IsOnTrack names s
    → elem target names ≡ true
    → index_of target names ≡ suc s.stage_index
    → Advances names s target (
        complete_current
          (name_at names s.stage_index)
          target
          (index_of target names)
          s.stages_completed)
unfolding complete_current
complete_current-Advances names s target track known next = rw track.at_index (
  record {
    at_index = name_at-index_of target names known;
    completed_before =
        rw (track.completed_before, next)
          (take-suc names s.stage_index s.current_stage track.at_index);
  },
  next,
  refl,
  refl,
)

reconfigure_named-Advances :
    (names : List String) (s : StageState) (target : String)
    → IsOnTrack names s
    → Advances names s target (reconfigure_named s names target)
unfolding reconfigure_named
reconfigure_named-Advances names s target track = elim (Bool-cases (elem target names)) [
  | inr unknown ↦ rw unknown tt
  | inl known ↦ elim (Bool-cases (ltb (index_of target names) s.stage_index)) [
    | inl back ↦ rw (known, back) tt
    | inr b ↦ elim (Bool-cases (nat_eq (index_of target names) s.stage_index)) [
      | inl same ↦ rw (known, b, same) tt
      | inr c ↦ elim (Bool-cases (ltb (s.stage_index + 1) (index_of target names))) [
        | inl far ↦ rw (known, b, c, far) tt
        | inr d ↦
            rw (known, b, c, d)
              (complete_current-Advances names s target track known (ground arith))
      ]
    ]
  ]
]

-- On a state that is on track, an advance enters the very next stage, makes it active, and adds the
-- stage that it leaves to the completed ones; the new state is on track again.
reconfigure_stage-Advances :
    (stages : List StageDef) (s s' : StageState) (target : String)
    → IsOnTrack (stage_names stages) s
    → reconfigure_stage s stages target ≡ advanced s'
    → IsOnTrack (stage_names stages) s'
      × (s'.stage_index ≡ suc s.stage_index)
      × (s'.current_stage ≡ target)
      × (s'.stage_status ≡ active)
unfolding reconfigure_stage
reconfigure_stage-Advances [] s s' target track e = cc
reconfigure_stage-Advances (first ∷ rest) s s' target track e =
    let names = stage_names (first ∷ rest) in
    rw e at (reconfigure_named-Advances names s target track)

-- A run through the stages: each request that is refused leaves the state.
unfoldable pub step_to : List StageDef → StageState → String → StageState
step_to stages s target = elim (reconfigure_stage s stages target) [ advanced s' ↦ s' | _ ↦ s ]

unfoldable pub run_stages : List StageDef → StageState → List String → StageState
run_stages stages s [] = s
run_stages stages s (t ∷ targets) = run_stages stages (step_to stages s t) targets

step_to-IsOnTrack :
    (stages : List StageDef) (s : StageState) (target : String)
    → IsOnTrack (stage_names stages) s
    → IsOnTrack (stage_names stages) (step_to stages s target)
unfolding step_to
step_to-IsOnTrack stages s target track = keep (reconfigure_stage s stages target) refl
  where
    keep :
        (r : StageResult)
        → reconfigure_stage s stages target ≡ r
        → IsOnTrack (stage_names stages) (elim r [ advanced s' ↦ s' | _ ↦ s ])
    keep (advanced s') e = (reconfigure_stage-Advances stages s s' target track e).0
    keep _ e = track

run_stages-keeps :
    (stages : List StageDef) (targets : List String) (s : StageState)
    → IsOnTrack (stage_names stages) s
    → IsOnTrack (stage_names stages) (run_stages stages s targets)
unfolding run_stages
run_stages-keeps stages [] s h = h
run_stages-keeps stages (t ∷ ts) s h =
    run_stages-keeps stages ts (step_to stages s t) (step_to-IsOnTrack stages s t h)

-- From the initial state of a workflow with stages, whatever stages are asked for: the current stage
-- is the one at the index, and the completed list is exactly the stages before it, in order.
pub run_stages-IsOnTrack :
    (first : StageDef) (rest : List StageDef) (targets : List String)
    → IsOnTrack
        (stage_names (first ∷ rest))
        (run_stages (first ∷ rest) (initialize_stage_state (first ∷ rest)) targets)
run_stages-IsOnTrack first rest targets =
    run_stages-keeps (first ∷ rest) targets _ (initialize_stage_state-IsOnTrack first rest)
