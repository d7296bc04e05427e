-- ===== src/Workers.antt =====
-- The loops of workers/tasks.py that carry a project through the stages of its workflow.
pub mod State
pub mod Batch
pub mod Stages
pub mod Cron
pub mod Edits
pub mod Session
