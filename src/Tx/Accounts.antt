-- ===== src/Tx/Accounts.antt =====
-- `applyTransfer`.
use l1_modular_blockchain.Common.{String, not, ◌==◌, str_eq}
use l1_modular_blockchain.Types.{MsgTransfer, signer_mismatch, zero_price}
use l1_modular_blockchain.Outcome.{Outcome, ok, ◌>>=◌, ◌>>◌, refuse_if}
use l1_modular_blockchain.Bolt.{Bolt}
use l1_modular_blockchain.State.{World}
use l1_modular_blockchain.State.Bank.{move}

module _ ⦃bolt : Bolt⦄ where
  unfoldable pub apply_transfer : World → String → MsgTransfer → Outcome World
  apply_transfer w signer msg = do
    refuse_if (not (str_eq msg.from signer)) signer_mismatch
    refuse_if (msg.amount.amount == 0) zero_price
    moved ← move w.accounts msg.from msg.to msg.amount.amount
    ok (record w { accounts = moved })
