-- ===== src/Block.antt =====
-- chain/internal/state/block.go: `commitBlock`, which advances the height and sweeps the requests
-- whose time has come.
mod Due
mod Sweep
mod Producer
unfoldable pub use Due.*
unfoldable pub use Sweep.*
unfoldable pub use Producer.*
