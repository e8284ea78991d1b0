-- ===== src/Payouts/Spec.antt =====
-- Who is owed what when a request ends. A dispute has one challenge.
use l1_modular_blockchain.Common.{
  ℕ, ◌+◌, ◌/◌, ◌%◌, String, List, [], ◌∷◌, ◌++◌, length, map, if◌then◌else◌,
}
use l1_modular_blockchain.Types.{
  InferenceRequest, RequestStatus, submitted, challenged, Challenge, Voucher,
}
use l1_modular_blockchain.State.{module_treasury_addr}
use l1_modular_blockchain.State.Bank.Payments.{bond_amount}
use l1_modular_blockchain.Resolution.{provider_side}
use l1_modular_blockchain.Solvency.Settle.{losing_bonds}
use l1_modular_blockchain.Payouts.Flow.{Payments}

-- The requester gets the escrow back.
abbrev pub refund_payments : InferenceRequest → Payments
refund_payments r = (r.requester, r.escrow.amount) ∷ []

-- The owner is paid, and gets the bond back.
abbrev pub finalize_payments : InferenceRequest → String → Payments
finalize_payments r owner = (owner, r.escrow.amount) ∷ (owner, bond_amount r.provider_bond) ∷ []

-- The bonds of vouchers go back to them.
abbrev pub bonds_back : List Voucher → Payments
bonds_back = map λ v. (v.voucher, v.bond.amount)

-- The bonds of the vouchers that backed the provider are lost to the treasury.
abbrev pub bonds_settled : List Voucher → Payments
bonds_settled =
    map λ v. (if v.supports_provider then module_treasury_addr else v.voucher, v.bond.amount)

-- The challenger gets the provider's bond beside the own one.
abbrev pub slash_payments : InferenceRequest → Challenge → Payments
slash_payments r c =
    (r.requester, r.escrow.amount)
    ∷ (c.challenger, bond_amount r.provider_bond)
    ∷ (c.challenger, c.bond.amount)
    ∷ bonds_settled r.vouchers

-- A pool in equal parts for the owner and the vouchers, where the owner gets what does not divide.
abbrev pub pool_shares : String → ℕ → List Voucher → Payments
pool_shares owner pool vs =
    let parts = 1 + length vs in
    (owner, pool / parts + pool % parts) ∷ map (λ v. (v.voucher, pool / parts)) vs

-- The challenger's side loses its bonds to the provider's.
abbrev pub dismiss_payments : InferenceRequest → String → Challenge → Payments
dismiss_payments r owner c =
    let backers = provider_side r.vouchers in
    (owner, r.escrow.amount)
    ∷ (owner, bond_amount r.provider_bond)
    ∷ (bonds_back backers ++ pool_shares owner (c.bond.amount + losing_bonds r.vouchers) backers)

-- In a void everyone gets back what was staked, which depends on how far the request came.
abbrev pub void_payments_in : InferenceRequest → String → RequestStatus → List Challenge → Payments
void_payments_in r owner challenged (c ∷ cs) =
    (owner, bond_amount r.provider_bond) ∷ (c.challenger, c.bond.amount) ∷ []
void_payments_in r owner challenged [] = (owner, bond_amount r.provider_bond) ∷ []
void_payments_in r owner submitted cs = (owner, bond_amount r.provider_bond) ∷ []
void_payments_in r owner _ cs = []

abbrev pub void_payments : InferenceRequest → String → Payments
void_payments r owner =
    (r.requester, r.escrow.amount)
    ∷ (void_payments_in r owner r.status r.challenges ++ bonds_back r.vouchers)
