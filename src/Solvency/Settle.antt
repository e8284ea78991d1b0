-- ===== src/Solvency/Settle.antt =====
-- About the loops over a request's vouchers in chain/internal/state/resolution.go, payment by
-- payment.
use native.Mathlib.Nat.{mul-div-le}
use l1_modular_blockchain.Common.{
  ℕ, ◌+◌, ◌-◌, ◌*◌, ◌/◌, ◌%◌, ◌^◌, ◌<◌, ◌≡◌, refl, true, String, List, [], ◌∷◌, length, arith, All,
  ltb, if◌then◌else◌, inl, inr, Bool-cases,
}
use l1_modular_blockchain.Types.{Coin, Voucher}
use l1_modular_blockchain.Outcome.{Ends, returns, Never, ◌then_by◌}
use l1_modular_blockchain.Bolt.{Bolt}
use l1_modular_blockchain.State.{Account}
use l1_modular_blockchain.State.Bank.Funds.{
  Holds, Holds-le, Holds-floating, accepts_treasury, credit-Holds, debit_escrow-Holds,
}
use l1_modular_blockchain.State.Bank.Payments.{pay_out_coin}
use l1_modular_blockchain.Resolution.{provider_side}
use l1_modular_blockchain.Resolution.Slash.{slash_payee, settle_slashed}
use l1_modular_blockchain.Resolution.Dismiss.{
  lost_bonds, reward_pool, return_bonds, pay_shares, share_pool,
}
use l1_modular_blockchain.Solvency.Stake.{voucher_bonds, IsVoucher}

-- The bonds of the challenger's side.
abbrev pub losing_bonds : List Voucher → ℕ
losing_bonds [] = 0
losing_bonds (v ∷ vs) = (if v.supports_provider then 0 else v.bond.amount) + losing_bonds vs

pub bonds_split :
    (vs : List Voucher) → voucher_bonds (provider_side vs) + losing_bonds vs ≡ voucher_bonds vs
bonds_split [] = refl
bonds_split (v ∷ vs) = ground (arith, bonds_split vs)

-- The pool that the code adds up is the sum, as long as it fits.
pub lost_bonds-eq :
    (pool : ℕ) (vs : List Voucher)
    → pool + losing_bonds vs < 2 ^ 64
    → lost_bonds pool vs ≡ pool + losing_bonds vs
unfolding lost_bonds
lost_bonds-eq pool [] h = omega arith
lost_bonds-eq pool (v ∷ vs) h =
    ground (arith, lost_bonds-eq pool vs, lost_bonds-eq ((pool + v.bond.amount) % 2 ^ 64) vs)

pub reward_pool-eq :
    (bond : Coin) (vs : List Voucher)
    → bond.amount + losing_bonds vs < 2 ^ 64
    → reward_pool bond vs ≡ bond.amount + losing_bonds vs
reward_pool-eq bond vs h = ground (arith, lost_bonds-eq 0 vs)

module _ ⦃bolt : Bolt⦄ where
  open bolt use {Dict, accepts}

  pub provider_side-IsVoucher :
      (vs : List Voucher) → All IsVoucher vs → All IsVoucher (provider_side vs)
  provider_side-IsVoucher [] h = tt
  provider_side-IsVoucher (v ∷ vs) h = ground (arith, provider_side-IsVoucher vs h.1)

  slash_payee-accepts : (v : Voucher) → accepts v.voucher ≡ true → accepts (slash_payee v) ≡ true
  slash_payee-accepts v h = ground (arith, accepts_treasury ⦃bolt = bolt⦄)

module _ ⦃bolt : Bolt⦄ (t f e : ℕ) where
  open bolt use {Dict, accepts}

  pub settle_slashed-Holds :
      (vs : List Voucher) (accs : Dict Account)
      → All IsVoucher vs
      → Holds t f (e + voucher_bonds vs) accs
      → Ends Never (Holds t f e) (settle_slashed accs vs)
  unfolding settle_slashed
  settle_slashed-Holds [] accs a h = returns (Holds-le e (omega arith) h)
  settle_slashed-Holds (v ∷ vs) accs a h =
      pay_out_coin t f (e + voucher_bonds vs) v.bond accs (slash_payee v)
        (slash_payee-accepts v a.0) (Holds-le _ (omega arith) h)
      then_by λ next n. settle_slashed-Holds vs next a.1 n

  pub return_bonds-Holds :
      (vs : List Voucher) (accs : Dict Account)
      → All IsVoucher vs
      → Holds t f (e + voucher_bonds vs) accs
      → Ends Never (Holds t f e) (return_bonds accs vs)
  unfolding return_bonds
  return_bonds-Holds [] accs a h = returns (Holds-le e (omega arith) h)
  return_bonds-Holds (v ∷ vs) accs a h =
      pay_out_coin t f (e + voucher_bonds vs) v.bond accs v.voucher a.0 (Holds-le _ (omega arith) h)
      then_by λ next n. return_bonds-Holds vs next a.1 n

module _ ⦃bolt : Bolt⦄ (t e share : ℕ) where
  open bolt use {Dict, accepts}

  pay_shares-Holds :
      (f : ℕ) (vs : List Voucher) (accs : Dict Account)
      → All IsVoucher vs
      → Holds t (f + share * length vs) e accs
      → Ends Never (Holds t f e) (pay_shares accs share vs)
  unfolding pay_shares
  pay_shares-Holds f [] accs a h = returns (Holds-floating f (omega arith) h)
  pay_shares-Holds f (v ∷ vs) accs a h =
      credit-Holds t (f + share * length vs) e share accs v.voucher a.0
        (Holds-floating _ (omega arith) h)
      then_by λ next n. pay_shares-Holds f vs next a.1 n

module _ ⦃bolt : Bolt⦄ (t f e : ℕ) where
  open bolt use {Dict, accepts}

  -- The whole pool is handed out, the remainder included.
  pub share_pool-Holds :
      (pool : ℕ) (owner : String) (vs : List Voucher) (accs : Dict Account)
      → accepts owner ≡ true
      → All IsVoucher vs
      → Holds t f (e + pool) accs
      → Ends Never (Holds t f e) (share_pool accs owner pool vs)
  unfolding share_pool
  share_pool-Holds pool owner vs accs o a h =
      let share = pool / (1 + length vs) in
      let rest : pool ≡ share + (pool - share * (1 + length vs)) + share * length vs =
        omega (arith, mul-div-le pool (1 + length vs)) in
      elim (Bool-cases (ltb 0 pool)) [
        | inl some_pool ↦ rw some_pool (
            debit_escrow-Holds t f e pool accs h then_by λ taken d.
            credit-Holds t (f + share * length vs) e _ taken owner o
              (Holds-floating _ (omega (arith, rest)) d)
            then_by λ paid p. pay_shares-Holds t e share f vs paid a p)
        | inr no_pool ↦ rw no_pool (returns (Holds-le e (omega arith) h))
      ]
