-- ===== src/Access.antt =====
-- Who may write which keys of a session's state: determine_agent_tier and validate_state_delta of
-- events/publisher.py, with the table of models/constants.py.
pub mod Tiers
use auto_builder.Base.{
  ℕ, String, Option, none, some, Bool, true, false, List, [], ◌∷◌, ltb, ◌==◌, if◌then◌else◌,
}
use text.Mathlib.Text.{starts_with}

pub data AgentTier : Type 0 where
  director pm worker : AgentTier

-- _TIER_RANK
abbrev pub rank : AgentTier → ℕ
rank worker = 0
rank pm = 1
rank director = 2

-- `lower` is `str.lower`.
unfoldable pub determine_agent_tier : (String → String) → String → AgentTier
determine_agent_tier lower name =
    let l = lower name in
    if l == "director" then director else if starts_with l "pm" then pm else worker

-- TIER_PREFIX_WRITE_ACCESS, in its order.
abbrev pub tier_prefix_write_access : List (String × AgentTier)
tier_prefix_write_access =
    ("director:", director)
    ∷ ("pm:", pm)
    ∷ ("app:", pm)
    ∷ ("worker:", worker)
    ∷ ("user:", worker)
    ∷ ("temp:", worker)
    ∷ []

-- The tier of the first prefix that fits; a key with no known prefix needs none.
unfoldable pub required_tier : List (String × AgentTier) → String → Option AgentTier
required_tier [] key = none
required_tier ((prefix, tier) ∷ table) key =
    if starts_with key prefix then some tier else required_tier table key

abbrev pub is_denied : ℕ → Option AgentTier → Bool
is_denied author_rank none = false
is_denied author_rank (some tier) = ltb author_rank (rank tier)

-- The keys of the delta that the author may not write.
unfoldable pub validate_state_delta : List String → AgentTier → List String
unfolding required_tier
validate_state_delta [] author = []
validate_state_delta (key ∷ keys) author =
    let rest = validate_state_delta keys author in
    if is_denied (rank author) (required_tier tier_prefix_write_access key)
    then key ∷ rest
    else rest
