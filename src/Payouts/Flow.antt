-- ===== src/Payouts/Flow.antt =====
-- A payment list and the balances before and after it.
use l1_modular_blockchain.Common.{
  ℕ, ◌+◌, ◌^◌, ◌<◌, ◌≤◌, ◌≡◌, ◌≢◌, refl, sym, String, Bool, List, [], ◌∷◌, ◌++◌, arith, ltb, ◌==◌,
  if◌then◌else◌, str_eq, str_eq→eq, str_eq_refl, Bool-cases, inl, inr, sum_by, sum_by-append,
}
use l1_modular_blockchain.Outcome.{Ends, returns, fails, Any}
use l1_modular_blockchain.Bolt.{Bolt}
use l1_modular_blockchain.State.{Account, module_escrow_addr}
use l1_modular_blockchain.State.Bank.{balance, credit, debit}
use l1_modular_blockchain.State.Bank.Funds.{
  supply, supply-store, balance-store_eq, balance-store_ne, balance-le-supply,
}

-- Payees with their amounts.
abbrev pub Payments : Type 0
Payments = List (String × ℕ)

abbrev pub only : Bool → ℕ → ℕ
only b n = if b then n else 0

abbrev pub received : String → Payments → ℕ
received a [] = 0
received a (p ∷ ps) = only (str_eq p.0 a) p.1 + received a ps

pub received-append :
    (a : String) (ps qs : Payments) → received a (ps ++ qs) ≡ received a ps + received a qs
received-append a [] qs = omega arith
received-append a (p ∷ ps) qs = omega (arith, received-append a ps qs)

abbrev pub total_of : Payments → ℕ
total_of = sum_by λ p. p.1

pub received-le-total : (a : String) (ps : Payments) → received a ps ≤ total_of ps
received-le-total a [] = omega arith
received-le-total a (p ∷ ps) = ground (arith, received-le-total a ps)

module _ ⦃bolt : Bolt⦄ where
  open bolt use {Dict, store, accepts}

  -- `out` leaves the escrow account, and the payments arrive.
  pub record Flow (out : ℕ) (ins : Payments) (accs accs' : Dict Account) : Type 0 where
    pub balances :
        (a : String)
        → balance accs' a + only (str_eq module_escrow_addr a) out ≡ balance accs a + received a ins
    pub supplies : supply accs' + out ≡ supply accs + total_of ins

  pub still : (accs : Dict Account) → Flow 0 [] accs accs
  still accs = record { balances = λ a. ground arith; supplies = refl }

  pub Flow-trans :
      {o o' : ℕ} {ps qs : Payments} (accs accs' accs'' : Dict Account)
      → Flow o ps accs accs'
      → Flow o' qs accs' accs''
      → Flow (o + o') (ps ++ qs) accs accs''
  Flow-trans {o} {o'} {ps} {qs} accs accs' accs'' h k = record {
    balances = λ a. ground (arith, h.balances a, k.balances a, received-append a ps qs);
    supplies = omega (arith, h.supplies, k.supplies, sum_by-append (λ (p : String × ℕ). p.1) ps qs);
  }

  -- The same flow, its amount and payments written otherwise.
  pub Flow-as :
      {o o' : ℕ} {ps qs : Payments} (accs accs' : Dict Account)
      → o ≡ o'
      → ((a : String) → received a ps ≡ received a qs)
      → total_of ps ≡ total_of qs
      → Flow o ps accs accs'
      → Flow o' qs accs accs'
  Flow-as accs accs' e f g h = record {
    balances = λ a. ground (arith, h.balances a, f a);
    supplies = omega (arith, h.supplies);
  }

  -- Writes of one account that take from the escrow account, and that add to any.
  lose-Flow :
      (accs : Dict Account) (n : ℕ) (acc : Account)
      → acc.balance + n ≡ balance accs module_escrow_addr
      → Flow n [] accs (store accs module_escrow_addr acc)
  lose-Flow accs n acc e = record {
    balances = λ a. elim (Bool-cases (str_eq module_escrow_addr a)) [
      | inl same ↦
          let b = balance-store_eq accs a module_escrow_addr acc (sym (str_eq→eq _ a same)) in
          rw same (omega (arith, b.0, b.1))
      | inr other ↦
          let differ : a ≢ module_escrow_addr =
            λ p. cc (p, other, str_eq_refl module_escrow_addr) in
          rw other (omega (arith, balance-store_ne accs a module_escrow_addr acc differ))
    ];
    supplies = omega (arith, supply-store accs module_escrow_addr acc);
  }

  gain-Flow :
      (accs : Dict Account) (dst : String) (n : ℕ) (acc : Account)
      → acc.balance ≡ balance accs dst + n
      → Flow 0 ((dst, n) ∷ []) accs (store accs dst acc)
  gain-Flow accs dst n acc e = record {
    balances = λ a. elim (Bool-cases (str_eq dst a)) [
      | inl same ↦
          let b = balance-store_eq accs a dst acc (sym (str_eq→eq _ a same)) in
          rw same (ground (arith, b.0, b.1))
      | inr other ↦
          let differ : a ≢ dst = λ p. cc (p, other, str_eq_refl dst) in
          rw other (ground (arith, balance-store_ne accs a dst acc differ))
    ];
    supplies = omega (arith, supply-store accs dst acc);
  }

  pub debit-Flow :
      (accs : Dict Account) (n : ℕ) → Ends Any (Flow n [] accs) (debit accs module_escrow_addr n)
  unfolding debit
  debit-Flow accs n = elim (Bool-cases (n == 0)) [
    | inl nothing ↦
        rw nothing (returns (Flow-as accs accs (ground arith) (λ a. refl) refl (still accs)))
    | inr something ↦ elim (Bool-cases (ltb (balance accs module_escrow_addr) n)) [
      | inl short ↦ rw (something, short) (fails tt)
      | inr enough ↦ elim (Bool-cases (accepts module_escrow_addr)) [
        | inl taken ↦ rw (something, enough, taken) (returns (lose-Flow accs n _ (ground arith)))
        | inr refused ↦ rw (something, enough, refused) (fails tt)
      ]
    ]
  ]

  -- No balance wraps while the supply with the amount fits.
  pub credit-Flow :
      (accs : Dict Account) (dst : String) (n : ℕ)
      → supply accs + n < 2 ^ 64
      → Ends Any (Flow 0 ((dst, n) ∷ []) accs) (credit accs dst n)
  unfolding credit
  credit-Flow accs dst n fits = elim (Bool-cases (n == 0)) [
    | inl nothing ↦
        rw nothing
          (returns (Flow-as accs accs refl (λ a. ground arith) (ground arith) (still accs)))
    | inr something ↦ elim (Bool-cases (accepts dst)) [
      | inl taken ↦
          rw (something, taken)
            (returns (gain-Flow accs dst n _ (omega (arith, balance-le-supply accs dst))))
      | inr refused ↦ rw (something, refused) (fails tt)
    ]
  ]
