-- ===== src/Connection.antt =====
-- core/transport/connection.py: the frames of a connection, its two bounded queues and its one writer.
pub mod Json
pub mod Chunks
pub mod Framing
pub mod Queues
pub mod Receipts
pub mod Bounds
pub mod Order
pub mod Settled
pub mod Fairness
mod Examples
