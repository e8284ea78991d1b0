-- ===== src/Payouts/Loops.antt =====
-- About the loops over vouchers in chain/internal/state/resolution.go, as payment lists.
use l1_modular_blockchain.Common.{
  ℕ, ◌+◌, ◌*◌, ◌/◌, ◌%◌, ◌^◌, ◌<◌, ◌≡◌, refl, String, List, [], ◌∷◌, arith, length, ltb, map,
  Bool-cases, inl, inr, Option, none, some,
}
use native.Mathlib.Nat.{mul-div-le, mod-eq-sub-div-mul}
use l1_modular_blockchain.Types.{Voucher, Challenge}
use l1_modular_blockchain.Outcome.{Ends, returns, Any, ◌then_by◌, weaken}
use l1_modular_blockchain.Bolt.{Bolt}
use l1_modular_blockchain.State.{Account}
use l1_modular_blockchain.State.Bank.Funds.{supply}
use l1_modular_blockchain.Resolution.Slash.{settle_slashed, slash_payee}
use l1_modular_blockchain.Resolution.Dismiss.{return_bonds, pay_shares, share_pool}
use l1_modular_blockchain.Resolution.Void.{return_challenge}
use l1_modular_blockchain.Payouts.Flow.{
  Payments, Flow, Flow-as, Flow-trans, still, total_of, received-le-total, debit-Flow, credit-Flow,
}
use l1_modular_blockchain.Payouts.Moves.{Pays, Pays-supply, Pays-trans, move_coin-Pays}
use l1_modular_blockchain.Payouts.Spec.{bonds_back, bonds_settled, pool_shares}

module _ ⦃bolt : Bolt⦄ where
  open bolt use {Dict}

  pub settle_slashed-Pays :
      (vs : List Voucher) (accs : Dict Account)
      → supply accs < 2 ^ 64
      → Ends Any (Pays (bonds_settled vs) accs) (settle_slashed accs vs)
  unfolding settle_slashed
  settle_slashed-Pays [] accs fits = returns (still accs)
  settle_slashed-Pays (v ∷ vs) accs fits =
      move_coin-Pays accs (slash_payee v) v.bond fits then_by λ next p.
      weaken (λ last q. Pays-trans _ (bonds_settled vs) accs next last p q)
        (settle_slashed-Pays vs next (omega (arith, Pays-supply _ accs next p)))

  pub return_bonds-Pays :
      (vs : List Voucher) (accs : Dict Account)
      → supply accs < 2 ^ 64
      → Ends Any (Pays (bonds_back vs) accs) (return_bonds accs vs)
  unfolding return_bonds
  return_bonds-Pays [] accs fits = returns (still accs)
  return_bonds-Pays (v ∷ vs) accs fits = move_coin-Pays accs v.voucher v.bond fits then_by λ next p.
      weaken (λ last q. Pays-trans _ (bonds_back vs) accs next last p q)
        (return_bonds-Pays vs next (omega (arith, Pays-supply _ accs next p)))

  abbrev shares_of : ℕ → List Voucher → Payments
  shares_of share = map λ v. (v.voucher, share)

  total_shares : (share : ℕ) (vs : List Voucher) → total_of (shares_of share vs) ≡ share * length vs
  total_shares share [] = omega arith
  total_shares share (v ∷ vs) = omega (arith, total_shares share vs)

  pay_shares-Flow :
      (share : ℕ) (vs : List Voucher) (accs : Dict Account)
      → supply accs + share * length vs < 2 ^ 64
      → Ends Any (Flow 0 (shares_of share vs) accs) (pay_shares accs share vs)
  unfolding pay_shares
  pay_shares-Flow share [] accs fits = returns (still accs)
  pay_shares-Flow share (v ∷ vs) accs fits =
      credit-Flow accs v.voucher share (omega arith) then_by λ next p.
      weaken (λ last q. Flow-trans accs next last p q)
        (pay_shares-Flow share vs next (omega (arith, p.supplies)))

  pool_total :
      (owner : String) (pool : ℕ) (vs : List Voucher) → total_of (pool_shares owner pool vs) ≡ pool
  pool_total owner pool vs =
      let parts = 1 + length vs in
      omega (
        arith,
        total_shares (pool / parts) vs,
        mul-div-le pool parts,
        mod-eq-sub-div-mul pool parts,
      )

  pub share_pool-Pays :
      (owner : String) (pool : ℕ) (vs : List Voucher) (accs : Dict Account)
      → supply accs < 2 ^ 64
      → Ends Any (Pays (pool_shares owner pool vs) accs) (share_pool accs owner pool vs)
  unfolding share_pool
  share_pool-Pays owner pool vs accs fits =
      let parts = 1 + length vs in
      let share = pool / parts in
      let all_of_it = pool_total owner pool vs in
      elim (Bool-cases (ltb 0 pool)) [
        | inl some_pool ↦
            rw (some_pool, ← mod-eq-sub-div-mul pool parts)
              (debit-Flow accs pool then_by λ taken d.
                credit-Flow taken owner (share + pool % parts)
                  (omega (arith, d.supplies, all_of_it))
                then_by λ given c.
                    weaken
                      (λ last q.
                        Flow-as accs last (omega (arith, all_of_it)) (λ a. refl) refl
                          (Flow-trans accs taken last d (Flow-trans taken given last c q)))
                      (pay_shares-Flow share vs given
                        (omega (arith, d.supplies, c.supplies, all_of_it, total_shares share vs))))
        | inr no_pool ↦
            let empty : pool ≡ 0 = ground arith in
            rw no_pool (
              returns (
                Flow-as accs accs (omega (arith, all_of_it, empty))
                  (λ a.
                    omega
                      (arith, all_of_it, empty, received-le-total a (pool_shares owner pool vs)))
                  (omega (arith, all_of_it, empty)) (still accs)))
      ]

  abbrev pub challenge_back : Option Challenge → Payments
  challenge_back none = []
  challenge_back (some c) = (c.challenger, c.bond.amount) ∷ []

  pub return_challenge-Pays :
      (challenge : Option Challenge) (accs : Dict Account)
      → supply accs < 2 ^ 64
      → Ends Any (Pays (challenge_back challenge) accs) (return_challenge accs challenge)
  unfolding return_challenge
  return_challenge-Pays none accs fits = returns (still accs)
  return_challenge-Pays (some c) accs fits = move_coin-Pays accs c.challenger c.bond fits
