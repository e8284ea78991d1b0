-- ===== src/Solvency.antt =====
-- The invariant of the chain, and the proofs about the transactions and blocks that rest on it.
-- The code is chain/internal/state.
pub mod Stake
pub mod Settle
pub mod Close
pub mod Outcomes
pub mod Voids
pub mod Sweeps
pub mod Blocks
pub mod Ticks
pub mod Producer
pub mod Updates
pub mod ServiceTxs
pub mod RequestTxs
pub mod DisputeTxs
pub mod DomainTxs
pub mod Signers
pub mod Submits
pub mod History
pub mod Once
pub mod Finality
pub mod Untouched
pub mod Replay
pub mod Forever
pub mod Transfers
