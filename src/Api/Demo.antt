-- ===== src/Api/Demo.antt =====
-- chain/internal/api/demo.go and demo_lifecycle.go: the `/demo` routes. A body that is not JSON is
-- `none`; of an error that is wrapped in a text, the cause is kept.
mod Messages
pub mod Routes
pub mod Challenged
pub mod Seed
unfoldable pub use Messages.*
