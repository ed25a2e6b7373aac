-- ===== src/Indexing.antt =====
-- internal/indexing: how a collection's index follows its source.
pub mod Syncer
pub mod Reindexer
pub mod Recorded
pub mod Traces
pub mod Memory
pub mod Delivered
