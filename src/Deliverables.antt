-- ===== src/Deliverables.antt =====
-- Deliverables: what is ready to run, how a status may change, what a failure blocks, and the
-- dependency graph. The code is in tools/management.py, agents/supervision.py and
-- workers/tasks.py.
pub mod Ready
pub mod Update
pub mod Failure
pub mod Graph
