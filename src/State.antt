-- ===== src/State.antt =====
-- chain/internal/state/state.go: the chain's state, its accounts, its stores, and its event log.
mod Chain
pub mod Bank
mod Stores
mod Admin
pub mod Keys
pub mod Log
pub mod Feed
pub mod Reads
unfoldable pub use Chain.*
unfoldable pub use Stores.*
unfoldable pub use Admin.*
