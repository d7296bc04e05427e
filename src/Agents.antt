-- ===== src/Agents.antt =====
-- The custom agents of agents/custom.
pub mod Resolver
pub mod Review
