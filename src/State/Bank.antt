-- ===== src/State/Bank.antt =====
-- `credit` and `debit`, and the pairs of them that the handlers write for each payment.
pub mod Funds
pub mod Payments
use l1_modular_blockchain.Common.{
  ℕ, ◌+◌, ◌-◌, ◌%◌, ◌^◌, String, Bool, Option, none, some, List, [], ◌∷◌, ltb, ◌==◌, if◌then◌else◌,
}
use l1_modular_blockchain.Types.{insufficient_funds, key_rejected, Coin, is_positive, no_coin}
use l1_modular_blockchain.Outcome.{Outcome, ok, err, ◌>>=◌}
use l1_modular_blockchain.Bolt.{Bolt}
use l1_modular_blockchain.State.Chain.{Account}

-- What is reported of a payment that is made if the coin is positive: the coin if it is positive, else `types.Coin{}`.
abbrev pub moved_coin : Coin → Coin
moved_coin coin = if is_positive coin then coin else no_coin

abbrev pub moved_bond : Option Coin → Coin
moved_bond none = no_coin
moved_bond (some coin) = moved_coin coin

module _ ⦃bolt : Bolt⦄ where
  open bolt use {Dict, find, store, accepts}

  -- `Bucket.Put` under a text key.
  abbrev pub put_text : {V : Type 0} → Dict V → String → V → Outcome (Dict V)
  put_text d k v = if accepts k then ok (store d k v) else err key_rejected

  abbrev account_or_new : String → Option Account → Account
  account_or_new addr none = record { address = addr; balance = 0; nonce = 0 }
  account_or_new addr (some acc) = acc

  unfoldable pub account : Dict Account → String → Account
  account accs addr = account_or_new addr (find accs addr)

  abbrev pub balance : Dict Account → String → ℕ
  balance accs addr = (account accs addr).balance

  unfoldable pub credit : Dict Account → String → ℕ → Outcome (Dict Account)
  credit accs addr amount =
      if amount == 0
      then ok accs
      else put_text accs addr
          (record (account accs addr) { balance = (balance accs addr + amount) % 2 ^ 64 })

  unfoldable pub debit : Dict Account → String → ℕ → Outcome (Dict Account)
  debit accs addr amount =
      if amount == 0
      then ok accs
      else if ltb (balance accs addr) amount
      then err insufficient_funds
      else put_text accs addr (record (account accs addr) { balance = balance accs addr - amount })

  -- `debit(src); credit(dst)`
  unfoldable pub move : Dict Account → String → String → ℕ → Outcome (Dict Account)
  move accs src dst amount = do debited ← debit accs src amount; credit debited dst amount

  -- `if coin.IsPositive() { debit(src); credit(dst) }`
  unfoldable pub move_coin : Dict Account → String → String → Coin → Outcome (Dict Account)
  move_coin accs src dst coin = if is_positive coin then move accs src dst coin.amount else ok accs

  -- The same of a coin that may be nil.
  unfoldable pub move_bond : Dict Account → String → String → Option Coin → Outcome (Dict Account)
  move_bond accs src dst none = ok accs
  move_bond accs src dst (some coin) = move_coin accs src dst coin
