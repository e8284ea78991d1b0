-- ===== src/Harness.antt =====
-- determinism-harness: a watcher, which replays what providers answered.
pub mod Check
pub mod Report
pub mod Filing
pub mod Honest
