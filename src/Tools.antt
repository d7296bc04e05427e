-- ===== src/Tools.antt =====
-- The todo list of a session and the shared tasks of a project: tools/task.py.
pub mod Todos
pub mod Tasks
