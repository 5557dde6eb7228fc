-- ===== src/Approval.antt =====
-- core/approval.py: the client's view of a plan approval.
pub mod State
pub mod Laws
pub mod Order
mod Examples
