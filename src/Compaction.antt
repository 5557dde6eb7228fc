-- ===== src/Compaction.antt =====
-- core/compact: which messages a compaction takes, and when one is called for.
pub mod Prefix
pub mod Balance
pub mod Search
pub mod Selection
mod Examples
