-- ===== src/Api.antt =====
-- chain/internal/api: the HTTP surface of the chain, and the development keyring.
pub mod Keyring
pub mod Sign
pub mod Boot
pub mod Signed
pub mod Demo
pub mod Serve
pub mod Addresses
pub mod Lists
