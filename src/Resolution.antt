-- ===== src/Resolution.antt =====
-- chain/internal/state/resolution.go: how a request ends in a slash, in a dismissal, or is void
-- because its domain has died.
mod Vouchers
pub mod Slash
pub mod Dismiss
pub mod Void
pub mod Sweep
pub use Vouchers.*
