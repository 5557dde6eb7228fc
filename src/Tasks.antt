-- ===== src/Tasks.antt =====
-- core/task: the task files of a session and the manager that edits them.
pub mod Model
pub mod Updates
pub mod Completion
pub mod Closed
mod Examples
