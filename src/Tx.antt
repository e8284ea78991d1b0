-- ===== src/Tx.antt =====
-- chain/internal/state/tx.go: the transactions.
pub mod Attest
pub mod Services
pub mod Requests
pub mod Disputes
pub mod Domains
pub mod Accounts
pub mod Wire
pub mod Hex
pub mod Submit
