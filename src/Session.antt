-- ===== src/Session.antt =====
-- core/session/model.py: the agent mode of a session, and the order of its snapshots.
pub mod Mode
pub mod Order
mod Examples
