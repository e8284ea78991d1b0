-- ===== src/Bolt.antt =====
-- go.etcd.io/bbolt, the key/value store under the chain. Its code is not in this repository, so its
-- buckets are the fields of a record with the documented laws: `Put` sets the value of one key and
-- leaves the other pairs, `Get` reads it, and a cursor walks the pairs in the order of the keys.
mod Cursor
mod Interface
mod Tables
pub mod Listing
mod Memory
pub use Cursor.*
unfoldable pub use Interface.*
pub use Tables.*
pub use Memory.{memory}
