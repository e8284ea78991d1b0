-- ===== src/Indexer.antt =====
-- indexer/internal: the read model of the chain, which follows its events.
pub mod Sqlite
pub mod Store
pub mod Sub
pub mod Rows
pub mod Replay
pub mod Api
pub mod Subscribe
