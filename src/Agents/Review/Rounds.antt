-- ===== src/Agents/Review/Rounds.antt =====
-- How a review cycle ends, and how often a reviewer runs in it.
use Prim.Native.Nat.{◌*◌}
use auto_builder.Base.{
  ℕ, zero, suc, ◌+◌, ◌≤◌, ◌<◌, ◌∙◌, ◌⊎◌, refl, subst, Bool, true, false, List, [], ◌∷◌, ◌≡◌, ap,
  inl, inr, select, length, arith, Bool-cases,
}
use auto_builder.Model.Values.{bool, int, State, get}
use auto_builder.Sessions.State.{put, starts_with, get-put}
use auto_builder.Agents.Review.{
  SubAgent, Words, is_review_approved, reviewed, run_agents, exhausted, run_iterations,
  run_review_cycle, iterate,
}

abbrev pub reviewers : List SubAgent → ℕ
reviewers agents = length (select (λ (a : SubAgent). starts_with a.name "reviewer") agents)

module _ (w : Words) where
  abbrev pub result_approves : State → Bool
  result_approves s = is_review_approved w (get s "review_result")

  -- The sub-agents run in turn from the first state to the second, the state of review_passed is False after
  -- each reviewer, and no reviewer's result approves.
  pub data Refuses : List SubAgent → State → State → Type 0 where
    none_left : (s : State) → Refuses [] s s
    worked :
        (a : SubAgent) (agents : List SubAgent) (s t : State)
        → starts_with a.name "reviewer" ≡ false
        → Refuses agents (a.run s) t
        → Refuses (a ∷ agents) s t
    refused :
        (a : SubAgent) (agents : List SubAgent) (s t : State)
        → starts_with a.name "reviewer" ≡ true
        → result_approves (a.run s) ≡ false
        → Refuses agents (put "review_passed" (bool false) (a.run s)) t
        → Refuses (a ∷ agents) s t

  -- The first reviewer whose result approves is the last sub-agent that runs, and review_passed is True
  -- after it.
  pub data Approves : List SubAgent → State → State → Type 0 where
    approved :
        (a : SubAgent) (agents : List SubAgent) (s : State)
        → starts_with a.name "reviewer" ≡ true
        → result_approves (a.run s) ≡ true
        → Approves (a ∷ agents) s (put "review_passed" (bool true) (a.run s))
    worked :
        (a : SubAgent) (agents : List SubAgent) (s t : State)
        → starts_with a.name "reviewer" ≡ false
        → Approves agents (a.run s) t
        → Approves (a ∷ agents) s t
    refused :
        (a : SubAgent) (agents : List SubAgent) (s t : State)
        → starts_with a.name "reviewer" ≡ true
        → result_approves (a.run s) ≡ false
        → Approves agents (put "review_passed" (bool false) (a.run s)) t
        → Approves (a ∷ agents) s t

  -- So many iterations in which no reviewer approves.
  pub data Refusals (agents : List SubAgent) : ℕ → State → State → Type 0 where
    start : (s : State) → Refusals agents 0 s s
    again :
        (n : ℕ) (s t u : State)
        → Refuses agents s t
        → Refusals agents n t u
        → Refusals agents (suc n) s u

  AgentsEnd : List SubAgent → State → ℕ → State × ℕ × Bool → Type 0
  AgentsEnd agents s reviews (t, n, true) = (n ≤ reviews + reviewers agents) × Approves agents s t
  AgentsEnd agents s reviews (t, n, false) = (n ≤ reviews + reviewers agents) × Refuses agents s t

  reviewed_lem :
      (b : Bool) (s : State) → result_approves s ≡ b → reviewed w s ≡ put "review_passed" (bool b) s
  reviewed_lem b s e = ap (λ x. put "review_passed" (bool x) s) e

  AgentsEnd-worked :
      (a : SubAgent) (agents : List SubAgent) (s : State) (reviews : ℕ) (out : State × ℕ × Bool)
      → starts_with a.name "reviewer" ≡ false
      → AgentsEnd agents (a.run s) reviews out
      → AgentsEnd (a ∷ agents) s reviews out
  unfolding AgentsEnd select
  AgentsEnd-worked a agents s reviews (t, n, true) e h =
      rw e (h.0, Approves.worked a agents s t e h.1)
  AgentsEnd-worked a agents s reviews (t, n, false) e h =
      rw e (h.0, Refuses.worked a agents s t e h.1)

  AgentsEnd-refused :
      (a : SubAgent) (agents : List SubAgent) (s : State) (reviews : ℕ) (out : State × ℕ × Bool)
      → starts_with a.name "reviewer" ≡ true
      → result_approves (a.run s) ≡ false
      → AgentsEnd agents (reviewed w (a.run s)) (suc reviews) out
      → AgentsEnd (a ∷ agents) s reviews out
  unfolding AgentsEnd select
  AgentsEnd-refused a agents s reviews (t, n, true) e no_pass h = rw e (
    omega (arith, h.0),
    Approves.refused a agents s t e no_pass
        (subst (λ x. Approves agents x t) (reviewed_lem false (a.run s) no_pass) h.1),
  )
  AgentsEnd-refused a agents s reviews (t, n, false) e no_pass h = rw e (
    omega (arith, h.0),
    Refuses.refused a agents s t e no_pass
        (subst (λ x. Refuses agents x t) (reviewed_lem false (a.run s) no_pass) h.1),
  )

  AgentsEnd-approved :
      (a : SubAgent) (agents : List SubAgent) (s : State) (reviews : ℕ)
      → starts_with a.name "reviewer" ≡ true
      → result_approves (a.run s) ≡ true
      → AgentsEnd (a ∷ agents) s reviews (reviewed w (a.run s), suc reviews, true)
  unfolding AgentsEnd select
  AgentsEnd-approved a agents s reviews e approves =
      rw (e, reviewed_lem true (a.run s) approves) (omega arith, approved a agents s e approves)

  AgentsEnd-nil : (s : State) (reviews : ℕ) → AgentsEnd [] s reviews (s, reviews, false)
  unfolding AgentsEnd select
  AgentsEnd-nil s reviews = (omega arith, none_left s)

  run_agents-ends :
      (agents : List SubAgent) (s : State) (reviews : ℕ)
      → AgentsEnd agents s reviews (run_agents w agents s reviews)
  unfolding run_agents
  run_agents-ends [] s reviews = AgentsEnd-nil s reviews
  run_agents-ends (a ∷ agents) s reviews = elim (Bool-cases (starts_with a.name "reviewer")) [
    | inr e ↦
        rw e (AgentsEnd-worked a agents s reviews _ e (run_agents-ends agents (a.run s) reviews))
    | inl e ↦ elim (Bool-cases (result_approves (a.run s))) [
      | inl approves ↦ rw (e, approves) (AgentsEnd-approved a agents s reviews e approves)
      | inr refuses ↦
          rw (e, refuses)
            (AgentsEnd-refused a agents s reviews _ e refuses
              (run_agents-ends agents (reviewed w (a.run s)) (suc reviews)))
    ]
  ]

  -- What the three flags say when the cycle has given up.
  abbrev pub IsExhausted : ℕ → State → Type 0
  IsExhausted limit s =
      (get s "review_passed" ≡ bool false)
      × (get s "review_cycle_exhausted" ≡ bool true)
      × (get s "review_cycle_iterations" ≡ int limit)

  -- How the iterations that are left end: one approves after some that do not, or none does.
  abbrev pub HasEnded : List SubAgent → ℕ → ℕ → ℕ → State → State × ℕ × Bool → Type 0
  HasEnded agents left limit reviews s (t, n, passed) =
      (n ≤ reviews + left * reviewers agents)
      × (((k : ℕ) × (k < left)
            × ((u : State) × Refusals agents k s u × Approves agents u t × (passed ≡ true)))
          ⊎ ((u : State) × Refusals agents left s u
              × (t ≡ exhausted w limit u)
              × IsExhausted limit t
              × (passed ≡ false)))

  exhausted-IsExhausted : (limit : ℕ) (s : State) → IsExhausted limit (exhausted w limit s)
  exhausted-IsExhausted limit s =
      let a = put "review_cycle_exhausted" (bool true) s in
      let b = put "review_cycle_iterations" (int limit) a in
      (
        get-put "review_passed" "review_passed" (bool false) b,
        get-put "review_passed" "review_cycle_exhausted" (bool false) b
            ∙ (get-put "review_cycle_iterations" "review_cycle_exhausted" (int limit) a
                ∙ get-put "review_cycle_exhausted" "review_cycle_exhausted" (bool true) s),
        get-put "review_passed" "review_cycle_iterations" (bool false) b
            ∙ get-put "review_cycle_iterations" "review_cycle_iterations" (int limit) a,
      )

  iterate-HasEnded :
      (left limit : ℕ) (agents : List SubAgent) (s : State) (reviews : ℕ) (out : State × ℕ × Bool)
      → AgentsEnd agents s reviews out
      → ((t : State) (n : ℕ)
          → HasEnded agents left limit n t (run_iterations w left limit agents t n))
      → HasEnded agents
          (suc left)
          limit
          reviews
          s
          (iterate w out (run_iterations w left limit agents))
  unfolding AgentsEnd
  iterate-HasEnded left limit agents s reviews (t, n, true) h rest =
      (grind (arith, h.0), inl (0, omega arith, (s, start s, h.1, refl)))
  iterate-HasEnded left limit agents s reviews (t, n, false) h rest =
      let later = rest t n in
      (
        grind (arith, h.0, later.0),
        elim later.1 [
          | inl (k, below, (u, before, approval, passed)) ↦
              inl (suc k, omega (arith, below), (u, again k s t u h.1 before, approval, passed))
          | inr (u, before, last, flags, passed) ↦
              inr (u, again left s t u h.1 before, last, flags, passed)
        ],
      )

  run_iterations-HasEnded :
      (left limit : ℕ) (agents : List SubAgent) (s : State) (reviews : ℕ)
      → HasEnded agents left limit reviews s (run_iterations w left limit agents s reviews)
  unfolding run_iterations
  run_iterations-HasEnded zero limit agents s reviews =
      (omega arith, inr (s, start s, refl, exhausted-IsExhausted limit s, refl))
  run_iterations-HasEnded (suc left) limit agents s reviews =
      iterate-HasEnded left limit agents s reviews (run_agents w agents s reviews)
        (run_agents-ends agents s reviews) (run_iterations-HasEnded left limit agents)

  -- A review cycle always ends, after at most as many reviews as it has iterations for each of its
  -- reviewers. Either the sub-agents run through fewer iterations than its limit without an approval and up
  -- to the first reviewer that approves in the next, with review_passed True, or they run through as many
  -- as its limit without an approval, and review_passed, review_cycle_exhausted and
  -- review_cycle_iterations say that.
  pub run_review_cycle-HasEnded :
      (limit : ℕ) (agents : List SubAgent) (s : State)
      → HasEnded agents limit limit 0 s (run_review_cycle w limit agents s)
  unfolding run_review_cycle
  run_review_cycle-HasEnded limit agents s = run_iterations-HasEnded limit limit agents s 0
