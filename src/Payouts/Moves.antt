-- ===== src/Payouts/Moves.antt =====
-- About a debit of the escrow account with its credit, as one payment.
use l1_modular_blockchain.Common.{
  ℕ, ◌^◌, ◌<◌, ◌≡◌, refl, String, Option, some, none, [], ◌∷◌, ◌++◌, arith, sum_by-append,
  Bool-cases, inl, inr,
}
use l1_modular_blockchain.Types.{Coin, is_positive}
use l1_modular_blockchain.Outcome.{Ends, returns, Any, ◌then_by◌, weaken}
use l1_modular_blockchain.Bolt.{Bolt}
use l1_modular_blockchain.State.{Account, module_escrow_addr}
use l1_modular_blockchain.State.Bank.{move, move_coin, move_bond}
use l1_modular_blockchain.State.Bank.Funds.{supply}
use l1_modular_blockchain.State.Bank.Payments.{bond_amount}
use l1_modular_blockchain.Payouts.Flow.{
  Payments, Flow, Flow-as, Flow-trans, still, total_of, debit-Flow, credit-Flow,
}

module _ ⦃bolt : Bolt⦄ where
  open bolt use {Dict}

  -- The payments are made out of the escrow account, and nothing else changes hands.
  abbrev pub Pays : Payments → Dict Account → Dict Account → Type 0
  Pays ps = Flow (total_of ps) ps

  -- The supply does not change.
  pub Pays-supply :
      (ps : Payments) (accs accs' : Dict Account) → Pays ps accs accs' → supply accs' ≡ supply accs
  Pays-supply ps accs accs' h = omega (arith, h.supplies)

  pub move-Pays :
      (accs : Dict Account) (dst : String) (n : ℕ)
      → supply accs < 2 ^ 64
      → Ends Any (Pays ((dst, n) ∷ []) accs) (move accs module_escrow_addr dst n)
  unfolding move
  move-Pays accs dst n fits = debit-Flow accs n then_by λ taken d.
      weaken (λ given c. Flow-as accs given refl (λ a. refl) refl (Flow-trans accs taken given d c))
        (credit-Flow taken dst n (omega (arith, d.supplies)))

  pub move_coin-Pays :
      (accs : Dict Account) (dst : String) (coin : Coin)
      → supply accs < 2 ^ 64
      → Ends Any (Pays ((dst, coin.amount) ∷ []) accs) (move_coin accs module_escrow_addr dst coin)
  unfolding move_coin
  move_coin-Pays accs dst coin fits = elim (Bool-cases (is_positive coin)) [
    | inl some_coin ↦ rw some_coin (move-Pays accs dst coin.amount fits)
    | inr no_coin ↦
        rw no_coin (
          returns
            (Flow-as accs accs (ground arith) (λ a. ground arith) (ground arith) (still accs)))
  ]

  pub move_bond-Pays :
      (accs : Dict Account) (dst : String) (bond : Option Coin)
      → supply accs < 2 ^ 64
      → Ends Any
          (Pays ((dst, bond_amount bond) ∷ []) accs)
          (move_bond accs module_escrow_addr dst bond)
  unfolding move_bond
  move_bond-Pays accs dst none fits =
      returns (Flow-as accs accs refl (λ a. ground arith) refl (still accs))
  move_bond-Pays accs dst (some coin) fits = move_coin-Pays accs dst coin fits

  -- One payment list after another.
  pub Pays-trans :
      (ps qs : Payments) (accs accs' accs'' : Dict Account)
      → Pays ps accs accs'
      → Pays qs accs' accs''
      → Pays (ps ++ qs) accs accs''
  Pays-trans ps qs accs accs' accs'' h k =
      Flow-as accs accs'' (omega (arith, sum_by-append (λ (p : String × ℕ). p.1) ps qs)) (λ a. refl)
        refl (Flow-trans accs accs' accs'' h k)
