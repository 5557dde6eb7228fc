-- ===== src/Loop.antt =====
-- core/loop.py: the plan, act, observe loop of one run.
pub mod Admission
pub mod Steps
pub mod Retries
pub mod Runs
pub mod Success
mod Examples
