-- ===== src/Payouts.antt =====
-- What each way of ending a request pays to whom, as lists of payments out of the escrow account,
-- beside the code of chain/internal/state that makes them one debit and one credit at a time.
pub mod Flow
pub mod Moves
pub mod Spec
pub mod Loops
pub mod Endings
