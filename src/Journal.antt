-- ===== src/Journal.antt =====
-- core/events/journal.py: the durable event journal of a daemon.
pub mod Stream
pub mod Invariant
pub mod Batches
pub mod Writes
pub mod Histories
pub mod Routing
pub mod Targets
pub mod Publish
pub mod Failures
pub mod Refusals
pub mod Delivery
pub mod Accepted
pub mod Entry
mod Examples
