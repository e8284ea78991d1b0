-- ===== src/State/Bank/Payments.antt =====
-- The pairs of a debit and a credit: payments out of the reserve, and stakes that are locked.
use l1_modular_blockchain.Common.{
  ℕ, ◌+◌, ◌≡◌, ◌≢◌, String, true, Option, none, some, inl, inr, arith, Bool-cases,
}
use l1_modular_blockchain.Types.{Coin, is_positive}
use l1_modular_blockchain.Outcome.{Ends, returns, Any, Never, ◌then_by◌, Any-of_Never}
use l1_modular_blockchain.Bolt.{Bolt}
use l1_modular_blockchain.State.Chain.{Account, module_escrow_addr}
use l1_modular_blockchain.State.Bank.{move, move_coin, move_bond}
use l1_modular_blockchain.State.Bank.Funds.{
  Holds, credit-Holds, credit_escrow-Holds, debit_escrow-Holds, debit-Holds, credit_other-Holds,
}

-- The amount of a coin that may be nil.
abbrev pub bond_amount : Option Coin → ℕ
bond_amount none = 0
bond_amount (some coin) = coin.amount

module _ ⦃bolt : Bolt⦄ (t f e : ℕ) where
  open bolt use {Dict, accepts}

  -- The escrow account pays from its reserve.
  pub pay_out :
      (n : ℕ) (accs : Dict Account) (dst : String)
      → accepts dst ≡ true
      → Holds t f (e + n) accs
      → Ends Never (Holds t f e) (move accs module_escrow_addr dst n)
  unfolding move
  pay_out n accs dst a h =
      debit_escrow-Holds t f e n accs h then_by λ debited d. credit-Holds t f e n debited dst a d

  -- A user locks a stake.
  pub lock_in :
      (n : ℕ) (accs : Dict Account) (src : String)
      → module_escrow_addr ≢ src
      → Holds t f e accs
      → Ends Any (Holds t f (e + n)) (move accs src module_escrow_addr n)
  unfolding move
  lock_in n accs src ne h = debit-Holds t f e n accs src ne h then_by λ debited d.
      Any-of_Never (credit_escrow-Holds t f e n debited d)

  -- A user pays anyone.
  pub send :
      (n : ℕ) (accs : Dict Account) (src dst : String)
      → module_escrow_addr ≢ src
      → Holds t f e accs
      → Ends Any (Holds t f e) (move accs src dst n)
  unfolding move
  send n accs src dst ne h = debit-Holds t f e n accs src ne h then_by λ debited d.
      credit_other-Holds t f e n debited dst d

  pub pay_out_coin :
      (coin : Coin) (accs : Dict Account) (dst : String)
      → accepts dst ≡ true
      → Holds t f (e + coin.amount) accs
      → Ends Never (Holds t f e) (move_coin accs module_escrow_addr dst coin)
  unfolding move_coin
  pay_out_coin coin accs dst a h = elim (Bool-cases (is_positive coin)) [
    | inl positive ↦ rw positive (pay_out coin.amount accs dst a h)
    | inr zero_ ↦ rw zero_ (returns (ground (arith, h)))
  ]

  pub lock_coin :
      (coin : Coin) (accs : Dict Account) (src : String)
      → module_escrow_addr ≢ src
      → Holds t f e accs
      → Ends Any (Holds t f (e + coin.amount)) (move_coin accs src module_escrow_addr coin)
  unfolding move_coin
  lock_coin coin accs src ne h = elim (Bool-cases (is_positive coin)) [
    | inl positive ↦ rw positive (lock_in coin.amount accs src ne h)
    | inr zero_ ↦ rw zero_ (returns (ground (arith, h)))
  ]

  pub pay_out_bond :
      (bond : Option Coin) (accs : Dict Account) (dst : String)
      → accepts dst ≡ true
      → Holds t f (e + bond_amount bond) accs
      → Ends Never (Holds t f e) (move_bond accs module_escrow_addr dst bond)
  unfolding move_bond
  pay_out_bond none accs dst a h = returns (ground (arith, h))
  pay_out_bond (some coin) accs dst a h = pay_out_coin coin accs dst a h
