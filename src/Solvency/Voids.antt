-- ===== src/Solvency/Voids.antt =====
-- About `executeVoidDueToDomain` of chain/internal/state/resolution.go.
use l1_modular_blockchain.Common.{
  ℕ, ◌+◌, ◌≡◌, refl, ap, true, Option, none, some, List, [], ◌∷◌, arith, All,
}
use l1_modular_blockchain.Int64.{ℤ}
use l1_modular_blockchain.Types.{
  InferenceRequest, RequestStatus, pending, submitted, challenged, refunded, Challenge,
}
use l1_modular_blockchain.Outcome.{Ends, returns, Never, ◌then_by◌}
use l1_modular_blockchain.Bolt.{Bolt}
use l1_modular_blockchain.State.{World, Account}
use l1_modular_blockchain.State.Bank.Funds.{Holds, Holds-le}
use l1_modular_blockchain.State.Bank.Payments.{pay_out, pay_out_coin, pay_out_bond, bond_amount}
use l1_modular_blockchain.Resolution.Void.{
  execute_void, return_challenge, staked_bond, staked_challenge,
}
use l1_modular_blockchain.Tx.Domains.{is_open}
use l1_modular_blockchain.Solvency.Close.{
  Resolves, request-IsSound, service_of, release, close_request, rest,
}
use l1_modular_blockchain.Solvency.Settle.{return_bonds-Holds}
use l1_modular_blockchain.Solvency.Stake.{
  IsVoucher, Inv, HasShape, OneChallenge, stake_in, first_bond, voucher_bonds,
}

-- The stake of an open request, as `executeVoidDueToDomain` finds it.
abbrev pub challenge_bond : Option Challenge → ℕ
challenge_bond none = 0
challenge_bond (some c) = c.bond.amount

module _ ⦃bolt : Bolt⦄ where
  open bolt use {Dict, accepts}

  abbrev IsChallenger : Option Challenge → Type 0
  IsChallenger none = Unit
  IsChallenger (some c) = accepts c.challenger ≡ true

  record OpenStake (r : InferenceRequest) (s : RequestStatus) : Type 0 where
    split :
        stake_in r s
        ≡ r.escrow.amount
          + bond_amount (staked_bond s r.provider_bond)
          + challenge_bond (staked_challenge s r.challenges)
          + voucher_bonds r.vouchers
    payee : IsChallenger (staked_challenge s r.challenges)
    payees : All IsVoucher r.vouchers

  challenged-OpenStake :
      (r : InferenceRequest) (cs : List Challenge)
      → OneChallenge cs
      → (first_bond cs ≡ challenge_bond (staked_challenge challenged cs))
        × IsChallenger (staked_challenge challenged cs)
  challenged-OpenStake r [] h = elim h [ ]
  challenged-OpenStake r (c ∷ []) h = (refl, h)
  challenged-OpenStake r (c ∷ d ∷ cs) h = elim h [ ]

  open-OpenStake :
      (r : InferenceRequest) (s : RequestStatus) → is_open s ≡ true → HasShape r s → OpenStake r s
  open-OpenStake r pending o h = record {
    split = omega (arith, ap voucher_bonds h.2);
    payee = tt;
    payees = rw h.2 tt;
  }
  open-OpenStake r submitted o h = record {
    split = omega (arith, ap voucher_bonds h.2);
    payee = tt;
    payees = rw h.2 tt;
  }
  open-OpenStake r challenged o h =
      let c = challenged-OpenStake r r.challenges h.1 in
      record { split = omega (arith, c.0); payee = c.1; payees = h.2 }
  open-OpenStake r _ o h = cc

  return_challenge-Holds :
      (t f e : ℕ) (c : Option Challenge) (accs : Dict Account)
      → IsChallenger c
      → Holds t f (e + challenge_bond c) accs
      → Ends Never (Holds t f e) (return_challenge accs c)
  unfolding return_challenge
  return_challenge-Holds t f e none accs a h = returns (Holds-le e (omega arith) h)
  return_challenge-Holds t f e (some c) accs a h = pay_out_coin t f e c.bond accs c.challenger a h

module _ ⦃bolt : Bolt⦄ {total : ℕ} (w : World) (v : Inv total w) where
  open bolt use {get}

  -- On a state that satisfies the invariant, executeVoidDueToDomain of a stored open request
  -- cannot fail: the invariant holds after it with the same supply, no other request, no service
  -- and no nonce changes, and of the request only the status, which is REFUNDED, the height of its
  -- end and what was paid for it.
  pub execute_void-Resolves :
      (r : InferenceRequest) (here : get w.requests r.id ≡ some r) (height : ℤ)
      → is_open r.status ≡ true
      → Ends Never (λ x. Resolves total w r refunded x.0) (execute_void w r height)
  unfolding execute_void
  execute_void-Resolves r here height open_ =
      let s = (request-IsSound w v r.id r here).1 in
      let o = open-OpenStake r r.status open_ s.shaped in
      let e = rest w v r here refunded height r.paid in
      let bond = staked_bond r.status r.provider_bond in
      let challenge = staked_challenge r.status r.challenges in
      service_of w v r s then_by λ svc owner.
      pay_out total 0 (e + voucher_bonds r.vouchers + challenge_bond challenge + bond_amount bond)
        r.escrow.amount w.accounts r.requester s.payable
        (Holds-le _ (omega (arith, release w v r here refunded height r.paid refl, o.split))
          v.funded)
      then_by λ refund p.
          pay_out_bond total 0 (e + voucher_bonds r.vouchers + challenge_bond challenge) bond refund
            svc.owner owner p
          then_by λ released q.
              return_challenge-Holds total 0 (e + voucher_bonds r.vouchers) challenge released
                o.payee q
              then_by λ returned u.
                  return_bonds-Holds total 0 e r.vouchers returned o.payees u then_by λ settled z.
                  returns (close_request w v r here refunded height r.paid settled refl z)
