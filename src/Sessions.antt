-- ===== src/Sessions.antt =====
-- What an agent session's state goes through: the callbacks of agents/supervision.py, and the
-- recreation of agents/context_recreation.py.
pub mod State
pub mod Supervision
pub mod Recreation
pub mod Checkpoint
pub mod Persist
