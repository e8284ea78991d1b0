-- ===== src/Stream.antt =====
-- The stream of events: `GET /events` of chain/internal/api/api.go writes it, and the clients in
-- indexer/internal/sub and inference-node/internal/chain read it.
pub mod Text
pub mod Writer
pub mod Reader
pub mod Received
