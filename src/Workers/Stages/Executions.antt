-- ===== src/Workers/Stages/Executions.antt =====
-- What the writes of the stage loop of workers/tasks.py do to the stage executions.
use auto_builder.Base.{
  ℕ, String, some, Bool, true, false, List, [], ◌∷◌, ◌++◌, ◌≡◌, refl, inl, inr, ◌==◌, Any, find,
  arith, eq_iff, Bool-cases,
}
use auto_builder.Workers.State.{StageExecution}
use auto_builder.Workers.Stages.{is_done, is_execution_of, resumed, write_first, complete_stage}

-- The project has a completed execution of the stage.
abbrev pub IsCompleted : String → String → List StageExecution → Type 0
IsCompleted pid name =
    Any (λ (x : StageExecution). (is_execution_of pid name x ≡ true) × (is_done x.status ≡ true))

-- It has one with the id.
abbrev pub IsOpened : String → String → String → List StageExecution → Type 0
IsOpened pid name sid =
    Any (λ (x : StageExecution). (is_execution_of pid name x ≡ true) × (x.id ≡ sid))

pub Any-append_left :
    (P : StageExecution → Type 0) (xs ys : List StageExecution) → Any P xs → Any P (xs ++ ys)
Any-append_left P [] ys h = absurd h
Any-append_left P (x ∷ xs) ys (inl h) = inl h
Any-append_left P (x ∷ xs) ys (inr h) = inr (Any-append_left P xs ys h)

pub Any-append_last :
    (P : StageExecution → Type 0) (xs : List StageExecution) (y : StageExecution)
    → P y
    → Any P (xs ++ y ∷ [])
Any-append_last P [] y h = inl h
Any-append_last P (x ∷ xs) y h = inr (Any-append_last P xs y h)

pub complete_stage-IsCompleted :
    (now : ℕ) (pid name sid : String) (xs : List StageExecution)
    → IsCompleted pid name xs
    → IsCompleted pid name (complete_stage now sid xs)
unfolding complete_stage
complete_stage-IsCompleted now pid name sid [] h = h
complete_stage-IsCompleted now pid name sid (x ∷ xs) (inl h) =
    inl (ground (arith, h.0, h.1), ground (arith, h.1))
complete_stage-IsCompleted now pid name sid (x ∷ xs) (inr h) =
    inr (complete_stage-IsCompleted now pid name sid xs h)

pub complete_stage-IsOpened :
    (now : ℕ) (pid name sid : String) (xs : List StageExecution)
    → IsOpened pid name sid xs
    → IsCompleted pid name (complete_stage now sid xs)
unfolding complete_stage
complete_stage-IsOpened now pid name sid [] h = absurd h
complete_stage-IsOpened now pid name sid (x ∷ xs) (inl h) =
    let same : (x.id == sid) ≡ true = (eq_iff x.id sid).1 h.1 in inl (rw same (h.0, refl))
complete_stage-IsOpened now pid name sid (x ∷ xs) (inr h) =
    inr (complete_stage-IsOpened now pid name sid xs h)

pub write_first-IsCompleted :
    (p : StageExecution → Bool) (f : StageExecution → StageExecution) (x : StageExecution)
    (pid name : String) (xs : List StageExecution)
    → find p xs ≡ some x
    → is_done x.status ≡ false
    → IsCompleted pid name xs
    → IsCompleted pid name (write_first p f xs)
unfolding write_first find
write_first-IsCompleted p f x pid name [] found open_ h = h
write_first-IsCompleted p f x pid name (y ∷ ys) found open_ h = elim (Bool-cases (p y)) [
  | inr e ↦ rw e (elim h [
    | inl here ↦ inl here
    | inr there ↦ inr (write_first-IsCompleted p f x pid name ys (rw e at found) open_ there)
  ])
  | inl e ↦ rw e (elim h [
    | inl here ↦
        let found' = rw e at found in let same : y ≡ x = cc in let bad = rw same at here.1 in cc
    | inr there ↦ inr there
  ])
]

pub write_first-IsOpened :
    (now : ℕ) (pid name : String) (x : StageExecution) (xs : List StageExecution)
    → find (is_execution_of pid name) xs ≡ some x
    → IsOpened pid name x.id (write_first (is_execution_of pid name) (resumed now) xs)
unfolding write_first find
write_first-IsOpened now pid name x [] found = cc
write_first-IsOpened now pid name x (y ∷ ys) found =
    elim (Bool-cases (is_execution_of pid name y)) [
      | inr e ↦ rw e (inr (write_first-IsOpened now pid name x ys (rw e at found)))
      | inl e ↦ let found' = rw e at found in let same : y ≡ x = cc in rw e (inl (e, rw same refl))
    ]

pub find-IsCompleted :
    (pid name : String) (x : StageExecution) (xs : List StageExecution)
    → find (is_execution_of pid name) xs ≡ some x
    → is_done x.status ≡ true
    → IsCompleted pid name xs
unfolding find
find-IsCompleted pid name x [] found done = cc
find-IsCompleted pid name x (y ∷ ys) found done = elim (Bool-cases (is_execution_of pid name y)) [
  | inr e ↦ inr (find-IsCompleted pid name x ys (rw e at found) done)
  | inl e ↦ let found' = rw e at found in let same : y ≡ x = cc in inl (e, rw same done)
]
