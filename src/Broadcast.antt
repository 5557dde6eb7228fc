-- ===== src/Broadcast.antt =====
-- core/transport/ipc_broadcaster.py: subscriptions, and the switch from replay to live delivery.
pub mod State
pub mod Publish
pub mod Lookup
pub mod Others
pub mod Elsewhere
pub mod Facts
pub mod Published
pub mod Replayed
pub mod Around
pub mod Keeping
pub mod Journey
pub mod Limits
pub mod Deliveries
pub mod Admitted
pub mod Window
pub mod OnConnection
mod Examples
