-- ===== src/Solvency/Outcomes.antt =====
-- About the ends of one open request: the refund and the finalization of `commitBlock`,
-- `executeSlash` and `executeDismiss`.
use l1_modular_blockchain.Common.{
  ℕ, ◌+◌, ◌<◌, ◌^◌, ◌≡◌, refl, ap, subst, true, some, List, [], ◌∷◌, arith, All,
}
use l1_modular_blockchain.Int64.{ℤ}
use l1_modular_blockchain.Types.{
  InferenceRequest, pending, submitted, challenged, finalized, slashed, refunded, Challenge,
}
use l1_modular_blockchain.Outcome.{Ends, returns, Never, ◌then_by◌}
use l1_modular_blockchain.Bolt.{Bolt}
use l1_modular_blockchain.State.{World}
use l1_modular_blockchain.State.Bank.Funds.{Holds-le, reserve_bounded}
use l1_modular_blockchain.State.Bank.Payments.{pay_out, pay_out_coin, pay_out_bond, bond_amount}
use l1_modular_blockchain.Resolution.{first_challenge, provider_side}
use l1_modular_blockchain.Resolution.Slash.{execute_slash}
use l1_modular_blockchain.Resolution.Dismiss.{execute_dismiss, reward_pool}
use l1_modular_blockchain.Block.{refund_request, finalize_request}
use l1_modular_blockchain.Solvency.Close.{
  Resolves, request-IsSound, service_of, release, close_request, rest,
}
use l1_modular_blockchain.Solvency.Settle.{
  settle_slashed-Holds, return_bonds-Holds, share_pool-Holds, provider_side-IsVoucher, losing_bonds,
  bonds_split, reward_pool-eq,
}
use l1_modular_blockchain.Solvency.Stake.{
  IsVoucher, Inv, HasShape, OneChallenge, stake_in, first_bond, voucher_bonds,
}

module _ ⦃bolt : Bolt⦄ {total : ℕ} (w : World) (v : Inv total w) where
  open bolt use {Table, Dict, get, put, accepts}

  module _ (r : InferenceRequest) (here : get w.requests r.id ≡ some r) (height : ℤ) where
    -- On a state that satisfies the invariant, commitBlock's refund of a stored pending request
    -- cannot fail: the invariant holds after it with the same supply, no other request, no service
    -- and no nonce changes, and of the request only the status, which is REFUNDED, the height of
    -- its end and what was paid for it.
    pub refund_request-Resolves :
        r.status ≡ pending
        → Ends Never (λ x. Resolves total w r refunded x.0) (refund_request w r height)
    unfolding refund_request
    refund_request-Resolves status =
        let s = (request-IsSound w v r.id r here).1 in
        pay_out total 0 (rest w v r here refunded height r.paid) r.escrow.amount w.accounts
          r.requester s.payable
          (Holds-le _
            (omega (arith, release w v r here refunded height r.paid refl, ap (stake_in r) status))
            v.funded)
        then_by λ paid p. returns (close_request w v r here refunded height r.paid paid refl p)

    -- On a state that satisfies the invariant, commitBlock's finalization of a stored submitted
    -- request cannot fail: the invariant holds after it with the same supply, no other request, no
    -- service and no nonce changes, and of the request only the status, which is FINALIZED, the
    -- height of its end and what was paid for it.
    pub finalize_request-Resolves :
        r.status ≡ submitted
        → Ends Never (λ x. Resolves total w r finalized x.0) (finalize_request w r height)
    unfolding finalize_request
    finalize_request-Resolves status =
        let s = (request-IsSound w v r.id r here).1 in
        let e = rest w v r here finalized height (some r.escrow) in
        service_of w v r s then_by λ svc owner.
        pay_out total 0 (e + bond_amount r.provider_bond) r.escrow.amount w.accounts svc.owner owner
          (Holds-le _
            (omega (
              arith,
              release w v r here finalized height (some r.escrow) refl,
              ap (stake_in r) status,
            ))
            v.funded)
        then_by λ paid p.
            pay_out_bond total 0 e r.provider_bond paid svc.owner owner p then_by λ released q.
            returns (close_request w v r here finalized height (some r.escrow) released refl q)

    -- A disputed request has its one challenge.
    disputed_shape : r.status ≡ challenged → OneChallenge r.challenges × All IsVoucher r.vouchers
    disputed_shape status =
        let shape = subst (HasShape r) status (request-IsSound w v r.id r here).1.shaped in
        (shape.1, shape.2)

    first_challenge-Ends :
        (cs : List Challenge)
        → OneChallenge cs
        → Ends Never
            (λ c. (accepts c.challenger ≡ true) × (first_bond cs ≡ c.bond.amount))
            (first_challenge cs)
    first_challenge-Ends [] h = elim h [ ]
    first_challenge-Ends (c ∷ []) h = returns (h, refl)
    first_challenge-Ends (c ∷ d ∷ cs) h = elim h [ ]

    -- On a state that satisfies the invariant, executeSlash of a stored request in dispute cannot
    -- fail: the invariant holds after it with the same supply, no other request, no service and no
    -- nonce changes, and of the request only the status, which is SLASHED, the height of its end
    -- and what was paid for it.
    pub execute_slash-Resolves :
        r.status ≡ challenged
        → Ends Never (λ x. Resolves total w r slashed x.0) (execute_slash w r height)
    unfolding execute_slash
    execute_slash-Resolves status =
        let s = (request-IsSound w v r.id r here).1 in
        let shape = disputed_shape status in
        let e = rest w v r here slashed height r.paid in
        let pool = bond_amount r.provider_bond in
        service_of w v r s then_by λ svc owner.
        first_challenge-Ends r.challenges shape.0 then_by λ c who.
        pay_out total 0 (e + voucher_bonds r.vouchers + c.bond.amount + pool) r.escrow.amount
          w.accounts r.requester s.payable
          (Holds-le _
            (omega
              (arith, release w v r here slashed height r.paid refl, ap (stake_in r) status, who.1))
            v.funded)
        then_by λ refunded p.
            pay_out_bond total 0 (e + voucher_bonds r.vouchers + c.bond.amount) r.provider_bond
              refunded c.challenger who.0 p
            then_by λ rewarded q.
                pay_out_coin total 0 (e + voucher_bonds r.vouchers) c.bond rewarded c.challenger
                  who.0 q
                then_by λ returned u.
                    settle_slashed-Holds total 0 e r.vouchers returned shape.1 u
                    then_by λ settled z.
                        returns (close_request w v r here slashed height r.paid settled refl z)

    -- On a state that satisfies the invariant, executeDismiss of a stored request in dispute
    -- cannot fail: the invariant holds after it with the same supply, no other request, no service
    -- and no nonce changes, and of the request only the status, which is FINALIZED, the height of
    -- its end and what was paid for it.
    pub execute_dismiss-Resolves :
        r.status ≡ challenged
        → Ends Never (λ x. Resolves total w r finalized x.0) (execute_dismiss w r height)
    unfolding execute_dismiss
    execute_dismiss-Resolves status =
        let s = (request-IsSound w v r.id r here).1 in
        let shape = disputed_shape status in
        let e = rest w v r here finalized height (some r.escrow) in
        let bond = bond_amount r.provider_bond in
        let backers = provider_side r.vouchers in
        let released = release w v r here finalized height (some r.escrow) refl in
        let split = bonds_split r.vouchers in
        service_of w v r s then_by λ svc owner.
        first_challenge-Ends r.challenges shape.0 then_by λ c who.
        let fits : c.bond.amount + losing_bonds r.vouchers < 2 ^ 64 =
          omega (arith, reserve_bounded v.funded, released, ap (stake_in r) status, who.1, split) in
        let pool = reward_pool c.bond r.vouchers in
        let pool_eq : pool ≡ c.bond.amount + losing_bonds r.vouchers =
          reward_pool-eq c.bond r.vouchers fits in
        pay_out total 0 (e + pool + voucher_bonds backers + bond) r.escrow.amount w.accounts
          svc.owner owner
          (Holds-le _ (omega (arith, released, ap (stake_in r) status, who.1, split, pool_eq))
            v.funded)
        then_by λ paid p.
            pay_out_bond total 0 (e + pool + voucher_bonds backers) r.provider_bond paid svc.owner
              owner p
            then_by λ released q.
                return_bonds-Holds total 0 (e + pool) backers released
                  (provider_side-IsVoucher r.vouchers shape.1) q
                then_by λ returned u.
                    share_pool-Holds total 0 e pool svc.owner backers returned owner
                      (provider_side-IsVoucher r.vouchers shape.1) u
                    then_by λ shared z.
                        returns
                          (close_request w v r here finalized height (some r.escrow) shared refl z)
