-- ===== src/State/Admin.antt =====
-- `Mint`, `SetParams` and `SetAuthority`: what genesis and the tests call on the state.
use l1_modular_blockchain.Common.{ℕ, String}
use l1_modular_blockchain.Types.{Params}
use l1_modular_blockchain.Outcome.{Outcome, ok, ◌>>=◌}
use l1_modular_blockchain.Bolt.{Bolt}
use l1_modular_blockchain.State.Chain.{World}
use l1_modular_blockchain.State.Bank.{credit}

module _ ⦃bolt : Bolt⦄ where
  unfoldable pub mint : World → String → ℕ → Outcome World
  mint w addr amount = do
    accounts ← credit w.accounts addr amount
    ok (record w { accounts = accounts })

  abbrev pub set_params : World → Params → World
  set_params w params = record w { params = params }
