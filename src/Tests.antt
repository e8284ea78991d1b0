-- ===== src/Tests.antt =====
-- Tests: a chain in memory, and the theorems on it.
mod Fixtures
mod Examples
mod Payouts
mod Blocks
mod Feeds
mod Mirror
mod Clients
