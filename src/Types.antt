-- ===== src/Types.antt =====
-- chain/internal/types/types.go: the on-chain data model. Strings are texts, a uint64 is a number
-- below 2^64, an int64 an integer, and a pointer that may be nil an Option.
mod Errors
mod Coins
mod Objects
mod Settings
mod Messages
mod Events
pub use Errors.*
unfoldable pub use Coins.*
pub use Objects.*
unfoldable pub use Settings.*
pub use Messages.*
pub use Events.*
