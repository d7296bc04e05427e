-- ===== src/Agents/Review.antt =====
-- ReviewCycleAgent of agents/custom/review_cycle.py. A sub-agent is its name and what it does to the
-- session's state; `is_approved` is _is_review_approved on the stored result, of which `upper` is
-- str.upper and `within` the test of one text in another. A delta of an event is written to the state.
pub mod Rounds
use auto_builder.Base.{
  ℕ, zero, suc, ◌+◌, String, Option, none, some, Bool, true, false, List, [], ◌∷◌, any,
  if◌then◌else◌,
}
use auto_builder.Model.Values.{Value, text, bool, int, State, get}
use auto_builder.Sessions.State.{put, starts_with}

pub record SubAgent : Type 0 where
  pub name : String
  pub run : State → State

pub record Words : Type 0 where
  pub upper : String → String
  pub within : String → String → Bool

abbrev pub approval_signals : List String
approval_signals = "APPROVED" ∷ "review_passed" ∷ "passed: true" ∷ "verdict: approved" ∷ []

module _ (w : Words) where
  abbrev pub is_review_approved : Value → Bool
  is_review_approved (text s) =
      any (λ signal. w.within (w.upper signal) (w.upper s)) approval_signals
  is_review_approved _ = false

  abbrev pub reviewed : State → State
  reviewed s = put "review_passed" (bool (is_review_approved (get s "review_result"))) s

  abbrev pub after_review : Bool → State → ℕ → (State → ℕ → State × ℕ × Bool) → State × ℕ × Bool
  after_review true s reviews rest = (reviewed s, suc reviews, true)
  after_review false s reviews rest = rest (reviewed s) (suc reviews)

  abbrev pub after_agent : Bool → State → ℕ → (State → ℕ → State × ℕ × Bool) → State × ℕ × Bool
  after_agent false s reviews rest = rest s reviews
  after_agent true s reviews rest =
      after_review (is_review_approved (get s "review_result")) s reviews rest

  -- The sub-agents in turn; a reviewer that approves ends the whole loop. `reviews` counts the
  -- reviewers' runs.
  unfoldable pub run_agents : List SubAgent → State → ℕ → State × ℕ × Bool
  unfolding any get put
  run_agents [] s reviews = (s, reviews, false)
  run_agents (a ∷ agents) s reviews =
      after_agent (starts_with a.name "reviewer") (a.run s) reviews (run_agents agents)

  abbrev pub exhausted : ℕ → State → State
  exhausted limit s =
      put "review_passed" (bool false)
        (put "review_cycle_iterations" (int limit) (put "review_cycle_exhausted" (bool true) s))

  abbrev pub iterate : State × ℕ × Bool → (State → ℕ → State × ℕ × Bool) → State × ℕ × Bool
  iterate (s, reviews, true) rest = (s, reviews, true)
  iterate (s, reviews, false) rest = rest s reviews

  -- The iterations that are left of `limit`.
  unfoldable pub run_iterations : ℕ → ℕ → List SubAgent → State → ℕ → State × ℕ × Bool
  unfolding run_agents put
  run_iterations zero limit agents s reviews = (exhausted limit s, reviews, false)
  run_iterations (suc left) limit agents s reviews =
      iterate (run_agents agents s reviews) (run_iterations left limit agents)

  unfoldable pub run_review_cycle : ℕ → List SubAgent → State → State × ℕ × Bool
  unfolding run_iterations
  run_review_cycle limit agents s = run_iterations limit limit agents s 0
