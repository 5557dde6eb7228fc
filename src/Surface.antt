-- ===== src/Surface.antt =====
-- core/session/surface.py: the revision of a conversation, by which a compaction is committed or refused.
pub mod State
pub mod Commits
mod Examples
