-- ===== src/Payouts/Endings.antt =====
-- About the ends of a request in chain/internal/state/block.go and resolution.go, as payment lists.
use l1_modular_blockchain.Common.{
  ℕ, ◌+◌, ◌^◌, ◌<◌, ◌≡◌, refl, ap, String, true, some, List, [], ◌∷◌, ◌++◌, arith, sum_by-append,
}
use l1_modular_blockchain.Int64.{ℤ}
use l1_modular_blockchain.Types.{
  Service, InferenceRequest, RequestStatus, pending, refunded, submitted, challenged, Challenge,
}
use l1_modular_blockchain.Outcome.{
  Outcome, ◌>>=◌, Ends, returns, Any, Never, ◌then_by◌, weaken, Ends-both, or_fail,
}
use l1_modular_blockchain.Bolt.{Bolt}
use l1_modular_blockchain.State.{World, Account, get_service}
use l1_modular_blockchain.State.Bank.Funds.{supply, reserve_bounded}
use l1_modular_blockchain.State.Bank.Payments.{bond_amount}
use l1_modular_blockchain.Tx.Domains.{is_open}
use l1_modular_blockchain.Resolution.{provider_side}
use l1_modular_blockchain.Resolution.Slash.{execute_slash}
use l1_modular_blockchain.Resolution.Dismiss.{execute_dismiss}
use l1_modular_blockchain.Resolution.Void.{execute_void, staked_bond, staked_challenge}
use l1_modular_blockchain.Block.{refund_request, finalize_request}
use l1_modular_blockchain.Solvency.Stake.{Inv, stake_in, first_bond}
use l1_modular_blockchain.Solvency.Close.{release}
use l1_modular_blockchain.Solvency.Settle.{losing_bonds, bonds_split, reward_pool-eq}
use l1_modular_blockchain.Solvency.Outcomes.{
  refund_request-Resolves, finalize_request-Resolves, execute_slash-Resolves,
  execute_dismiss-Resolves,
}
use l1_modular_blockchain.Solvency.Voids.{execute_void-Resolves}
use l1_modular_blockchain.Payouts.Flow.{Payments, Flow-as, total_of, received, received-append}
use l1_modular_blockchain.Payouts.Moves.{
  Pays, Pays-supply, Pays-trans, move-Pays, move_coin-Pays, move_bond-Pays,
}
use l1_modular_blockchain.Payouts.Spec.{
  refund_payments, finalize_payments, slash_payments, dismiss_payments, void_payments,
  void_payments_in, bonds_back, bonds_settled,
}
use l1_modular_blockchain.Payouts.Loops.{
  settle_slashed-Pays, return_bonds-Pays, share_pool-Pays, challenge_back, return_challenge-Pays,
}

module _ ⦃bolt : Bolt⦄ where
  open bolt use {Dict, get}

  -- A payment and what is paid after it.
  first_then {ℓ} :
      {B : Type ℓ} (ps qs : Payments) (accs : Dict Account) (at : B → Dict Account)
      {m : Outcome (Dict Account)} {f : Dict Account → Outcome B}
      → supply accs < 2 ^ 64
      → Ends Any (Pays ps accs) m
      → ((next : Dict Account)
          → supply next < 2 ^ 64
          → Ends Any (λ b. Pays qs next (at b)) (f next))
      → Ends Any (λ b. Pays (ps ++ qs) accs (at b)) (m >>= f)
  first_then ps qs accs at fits first then_ = first then_by λ next p.
      weaken (λ b q. Pays-trans ps qs accs next (at b) p q)
        (then_ next (omega (arith, Pays-supply ps accs next p)))

  fitting : {total : ℕ} (w : World) → Inv total w → supply w.accounts < 2 ^ 64
  fitting w v = omega (arith, v.funded.balanced, v.funded.bounded)

  certain {ℓ κ κ'} :
      {A : Type ℓ} {P : A → Type κ} {R : A → Type κ'} {m : Outcome A}
      → Ends Never P m
      → Ends Any R m
      → Ends Never R m
  certain h k = weaken (λ a p. p.1) (Ends-both h k)

  -- The two ways to write what a void pays, by the status.
  void_bonds :
      (owner : String) (r : InferenceRequest) (s : RequestStatus) (cs : List Challenge)
      → (total_of (
            (owner, bond_amount (staked_bond s r.provider_bond))
            ∷ challenge_back (staked_challenge s cs))
          ≡ total_of (void_payments_in r owner s cs))
        × ((a : String)
            → received a (
                (owner, bond_amount (staked_bond s r.provider_bond))
                ∷ challenge_back (staked_challenge s cs))
              ≡ received a (void_payments_in r owner s cs))
  void_bonds owner r challenged (c ∷ cs) = (refl, λ a. refl)
  void_bonds owner r challenged [] = (refl, λ a. refl)
  void_bonds owner r submitted cs = (refl, λ a. refl)
  void_bonds owner r _ cs = (refl, λ a. ground arith)

  void_as :
      (owner : String) (accs accs' : Dict Account) (r : InferenceRequest)
      → Pays
          ((r.requester, r.escrow.amount)
            ∷ (owner, bond_amount (staked_bond r.status r.provider_bond))
            ∷ (challenge_back (staked_challenge r.status r.challenges) ++ bonds_back r.vouchers))
          accs
          accs'
      → Pays (void_payments r owner) accs accs'
  void_as owner accs accs' r h =
      let same = void_bonds owner r r.status r.challenges in
      let staked = challenge_back (staked_challenge r.status r.challenges) in
      let paid = void_payments_in r owner r.status r.challenges in
      let back = bonds_back r.vouchers in
      let sums : total_of (staked ++ back) + bond_amount (staked_bond r.status r.provider_bond)
          ≡ total_of (paid ++ back) =
        omega (
          arith,
          same.0,
          sum_by-append (λ (p : String × ℕ). p.1) staked back,
          sum_by-append (λ (p : String × ℕ). p.1) paid back,
        ) in
      Flow-as accs accs' (omega (arith, sums))
        (λ a. ground (arith, same.1 a, received-append a staked back, received-append a paid back))
        (omega (arith, sums)) h

module _ ⦃bolt : Bolt⦄ {total : ℕ} (w : World) (v : Inv total w) (r : InferenceRequest)
    (here : bolt.get w.requests r.id ≡ some r) (height : ℤ) where
  open bolt use {Dict, get}

  -- On a state that satisfies the invariant, commitBlock's refund of a stored pending request
  -- cannot fail and makes exactly one payment out of the escrow account: the escrow back to the
  -- requester. Every other balance is as before.
  pub refund_request-Pays :
      r.status ≡ pending
      → Ends Never
          (λ x. Pays (refund_payments r) w.accounts x.0.accounts)
          (refund_request w r height)
  unfolding refund_request
  refund_request-Pays status =
      certain (refund_request-Resolves w v r here height status)
        (move-Pays w.accounts r.requester r.escrow.amount (fitting w v) then_by λ paid p. returns p)

  module _ (svc : Service) (served : get w.services r.service_id ≡ some svc) where
    -- On a state that satisfies the invariant, commitBlock's finalization of a stored submitted
    -- request with a stored service cannot fail and makes exactly two payments out of the escrow
    -- account: the escrow and the provider's bond, both to the service's owner. Every other
    -- balance is as before.
    pub finalize_request-Pays :
        r.status ≡ submitted
        → Ends Never
            (λ x. Pays (finalize_payments r svc.owner) w.accounts x.0.accounts)
            (finalize_request w r height)
    unfolding finalize_request get_service or_fail
    finalize_request-Pays status = certain (finalize_request-Resolves w v r here height status) (
        rw served (
          first_then ((svc.owner, r.escrow.amount) ∷ []) _ w.accounts (λ x. x.0.accounts)
            (fitting w v) (move-Pays w.accounts svc.owner r.escrow.amount (fitting w v))
            λ paid fits.
              move_bond-Pays paid svc.owner r.provider_bond fits then_by λ released p. returns p))

    -- On a state that satisfies the invariant, executeSlash of a stored request in dispute, with
    -- its one challenge and a stored service, cannot fail and makes exactly these payments out of
    -- the escrow account: the escrow back to the requester, the provider's bond and the
    -- challenge's bond to the challenger, and each voucher's bond to the treasury if it backed the
    -- provider and else back to the voucher. Every other balance is as before.
    pub execute_slash-Pays :
        (c : Challenge)
        → r.status ≡ challenged
        → r.challenges ≡ c ∷ []
        → Ends Never
            (λ x. Pays (slash_payments r c) w.accounts x.0.accounts)
            (execute_slash w r height)
    unfolding execute_slash get_service or_fail
    execute_slash-Pays c status one = certain (execute_slash-Resolves w v r here height status) (
        rw (served, one)
          (first_then ((r.requester, r.escrow.amount) ∷ []) _ w.accounts (λ x. x.0.accounts)
            (fitting w v) (move-Pays w.accounts r.requester r.escrow.amount (fitting w v))
            λ refunded f.
              first_then ((c.challenger, bond_amount r.provider_bond) ∷ []) _ refunded
                (λ x. x.0.accounts) f (move_bond-Pays refunded c.challenger r.provider_bond f)
                λ rewarded g.
                  first_then ((c.challenger, c.bond.amount) ∷ []) (bonds_settled r.vouchers)
                    rewarded (λ x. x.0.accounts) g (move_coin-Pays rewarded c.challenger c.bond g)
                    λ returned h.
                      settle_slashed-Pays r.vouchers returned h then_by λ settled p. returns p))

    -- On a state that satisfies the invariant, executeDismiss of a stored request in dispute, with
    -- its one challenge and a stored service, cannot fail and makes exactly these payments out of
    -- the escrow account: the escrow and the provider's bond to the service's owner, the bonds of
    -- the vouchers on the provider's side back to them, and of the challenge's bond with the other
    -- vouchers' bonds an equal part to the owner and to each voucher of that side, with what does
    -- not divide to the owner. Every other balance is as before.
    pub execute_dismiss-Pays :
        (c : Challenge)
        → r.status ≡ challenged
        → r.challenges ≡ c ∷ []
        → Ends Never
            (λ x. Pays (dismiss_payments r svc.owner c) w.accounts x.0.accounts)
            (execute_dismiss w r height)
    unfolding execute_dismiss get_service or_fail
    execute_dismiss-Pays c status one =
        let backers = provider_side r.vouchers in
        let fits_64 : c.bond.amount + losing_bonds r.vouchers < 2 ^ 64 = omega (
          arith,
          reserve_bounded v.funded,
          release w v r here refunded height r.paid refl,
          ap (stake_in r) status,
          ap first_bond one,
          bonds_split r.vouchers,
        ) in
        let pool_eq = reward_pool-eq c.bond r.vouchers fits_64 in
        certain (execute_dismiss-Resolves w v r here height status) (
          rw (served, one, pool_eq)
            (first_then ((svc.owner, r.escrow.amount) ∷ []) _ w.accounts (λ x. x.0.accounts)
              (fitting w v) (move-Pays w.accounts svc.owner r.escrow.amount (fitting w v))
              λ paid f.
                first_then ((svc.owner, bond_amount r.provider_bond) ∷ []) _ paid
                  (λ x. x.0.accounts) f (move_bond-Pays paid svc.owner r.provider_bond f)
                  λ released g.
                    first_then (bonds_back backers) _ released (λ x. x.0.accounts) g
                      (return_bonds-Pays backers released g)
                      λ returned h.
                        share_pool-Pays svc.owner (c.bond.amount + losing_bonds r.vouchers) backers
                          returned h
                        then_by λ shared p. returns p))

    -- On a state that satisfies the invariant, executeVoidDueToDomain of a stored open request
    -- with a stored service cannot fail and makes exactly these payments out of the escrow
    -- account: the escrow back to the requester, the provider's bond, which stands from SUBMITTED
    -- on, back to the owner, the first challenge's bond, while CHALLENGED, back to the challenger,
    -- and each voucher's bond back to it. Every other balance is as before.
    pub execute_void-Pays :
        is_open r.status ≡ true
        → Ends Never
            (λ x. Pays (void_payments r svc.owner) w.accounts x.0.accounts)
            (execute_void w r height)
    unfolding execute_void get_service or_fail
    execute_void-Pays open_ =
        let bond = staked_bond r.status r.provider_bond in
        let challenge = staked_challenge r.status r.challenges in
        certain (execute_void-Resolves w v r here height open_) (
          rw served (
            weaken (λ x p. void_as svc.owner w.accounts x.0.accounts r p)
              (first_then ((r.requester, r.escrow.amount) ∷ []) _ w.accounts (λ x. x.0.accounts)
                (fitting w v) (move-Pays w.accounts r.requester r.escrow.amount (fitting w v))
                λ refund f.
                  first_then ((svc.owner, bond_amount bond) ∷ []) _ refund (λ x. x.0.accounts) f
                    (move_bond-Pays refund svc.owner bond f)
                    λ released g.
                      first_then (challenge_back challenge) (bonds_back r.vouchers) released
                        (λ x. x.0.accounts) g (return_challenge-Pays challenge released g)
                        λ returned h.
                          return_bonds-Pays r.vouchers returned h then_by λ settled p. returns p)))
