-- ===== src/Lifecycle.antt =====
-- workers/lifecycle.py: pausing, resuming and aborting projects and the Director, and a CEO's
-- resolution; with suspend_project of agents/supervision.py, and delegate_to_pm of
-- tools/management.py. Each is a function on the world. A session's rows are written back whole at
-- its commit, so a failing operation returns the world that it was given.
pub mod Single
pub mod Bulk
pub mod Director
pub mod Audit
pub mod Stalls
pub mod Override
pub use Single.{
  Reply, pause_project, resume_project, abort_project, suspend_project, apply_resolution_to_project,
  delegate_to_pm,
}
pub use Bulk.{pause_all_projects, resume_all_projects}
pub use Director.{pause_director, resume_director}
