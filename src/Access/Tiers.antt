-- ===== src/Access/Tiers.antt =====
-- Which keys an agent is denied, and that higher tiers may write more.
use auto_builder.Base.{
  ◌≤◌, String, Option, none, some, true, false, List, [], ◌∷◌, ◌≡◌, refl, ◌==◌, ◌&&◌, elem, arith,
  eq_iff, Bool-cases, inl, inr, ◌⊎◌, ◌↔◌,
}
use text.Mathlib.Text.{starts_with}
use auto_builder.Access.{
  AgentTier, director, rank, tier_prefix_write_access, required_tier, is_denied,
  validate_state_delta, determine_agent_tier,
}

elem-validate_state_delta :
    (keys : List String) (author : AgentTier) (key : String)
    → elem key (validate_state_delta keys author)
      ≡ (elem key keys && is_denied (rank author) (required_tier tier_prefix_write_access key))
unfolding validate_state_delta elem
elem-validate_state_delta [] author key = refl
elem-validate_state_delta (k ∷ keys) author key = elim (Bool-cases (k == key)) [
  | inl same ↦
      rw ((eq_iff k key).0 same)
        (ground (arith, elem-validate_state_delta keys author key, eq_iff key key))
  | inr other ↦ ground (arith, elem-validate_state_delta keys author key)
]

denied_mono :
    (low high : AgentTier) (o : Option AgentTier)
    → rank low ≤ rank high
    → is_denied (rank high) o ≡ true
    → is_denied (rank low) o ≡ true
denied_mono low high none h d = d
denied_mono low high (some t) h d = ground arith

-- What a tier may not write, no lower tier may: each key that is reported for the higher author is
-- reported for the lower one.
validate_state_delta_mono :
    (keys : List String) (low high : AgentTier) (key : String)
    → rank low ≤ rank high
    → elem key (validate_state_delta keys high) ≡ true
    → elem key (validate_state_delta keys low) ≡ true
validate_state_delta_mono keys low high key h e =
    let o = required_tier tier_prefix_write_access key in
    let there = elem-validate_state_delta keys high key in
    let here = elem-validate_state_delta keys low key in
    ground (arith, there, here, denied_mono low high o h)

-- An agent whose lower-cased name is neither "director" nor begins with "pm" is denied every key of
-- the Director's and of the PM's that it tries to write, and the Director is denied none.
worker_denied :
    (lower : String → String) (name key : String) (keys : List String)
    → (lower name == "director") ≡ false
    → starts_with (lower name) "pm" ≡ false
    → (starts_with key "director:" ≡ true) ⊎ (starts_with key "pm:" ≡ true)
    → elem key keys ≡ true
    → (elem key (validate_state_delta keys (determine_agent_tier lower name)) ≡ true)
      × (elem key (validate_state_delta keys director) ≡ false)
unfolding determine_agent_tier required_tier
worker_denied lower name key keys a b c d = ground (
  arith,
  elem-validate_state_delta keys (determine_agent_tier lower name) key,
  elem-validate_state_delta keys director key,
)

-- The Director's keys are the Director's alone, and those of the PM and of the application are denied to
-- agents that are neither.
abbrev pub IsDenied : String → String → Type 0
IsDenied agent key =
    ((starts_with key "director:" ≡ true) × ((agent == "director") ≡ false))
    ⊎ (((starts_with key "pm:" ≡ true) ⊎ (starts_with key "app:" ≡ true))
        × (((agent == "director") ≡ false) × (starts_with agent "pm" ≡ false)))

-- Of the keys that an agent tries to write, those are reported that begin with "director:", unless its
-- lower-cased name is "director", and those that begin with "pm:" or "app:", unless that name is
-- "director" or begins with "pm"; no other key is reported.
pub validate_state_delta_iff :
    (lower : String → String) (name : String) (keys : List String) (key : String)
    → (elem key (validate_state_delta keys (determine_agent_tier lower name)) ≡ true)
      ↔ ((elem key keys ≡ true) × IsDenied (lower name) key)
unfolding determine_agent_tier required_tier
validate_state_delta_iff lower name keys key =
    ground (arith, elem-validate_state_delta keys (determine_agent_tier lower name) key)
