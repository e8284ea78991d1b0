-- ===== src/Node.antt =====
-- inference-node: a provider's worker, which answers the requests for its services.
pub mod Executor
pub mod Handler
