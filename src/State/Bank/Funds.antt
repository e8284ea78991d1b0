-- ===== src/State/Bank/Funds.antt =====
-- About `credit` and `debit`: the supply, and what the module escrow account is known to hold.
use l1_modular_blockchain.Common.{
  ℕ, ◌+◌, ◌%◌, refl, ◌^◌, ◌≤◌, ◌<◌, ◌≡◌, ◌≢◌, inl, inr, String, true, false, ltb, ◌==◌, arith,
  sum_by, sum_by-perm, Bool-cases, Option-cases, str-cases,
}
use l1_modular_blockchain.Outcome.{Ends, returns, fails, Any, Never}
use l1_modular_blockchain.Bolt.{Bolt}
use l1_modular_blockchain.State.Chain.{Account, module_escrow_addr, module_treasury_addr}
use l1_modular_blockchain.State.Bank.{account, balance, credit, debit}

module _ ⦃bolt : Bolt⦄ where
  open bolt use {
    Dict, find, store, accepts, accepts_lem, values, find-store_self, find-store_ne,
    values-store_new, values-store_old,
  }

  -- The sum of all balances.
  abbrev pub supply : Dict Account → ℕ
  supply accs = sum_by (λ a. a.balance) (values accs)

  -- A write of one account changes the supply by the change of its balance.
  pub supply-store :
      (accs : Dict Account) (addr : String) (acc : Account)
      → supply (store accs addr acc) + balance accs addr ≡ supply accs + acc.balance
  unfolding account
  supply-store accs addr acc = elim (Option-cases (find accs addr)) [
    | inl e ↦
        rw (e, balance)
          (omega (arith, sum_by-perm (λ a. a.balance) (values-store_new accs addr acc e)))
    | inr (u, e) ↦
        rw (e, balance)
          (omega (arith, sum_by-perm (λ a. a.balance) (values-store_old accs addr u acc e)))
  ]

  abbrev emptied : Account → Account
  emptied acc = record acc { balance = 0 }

  pub balance-le-supply : (accs : Dict Account) (addr : String) → balance accs addr ≤ supply accs
  balance-le-supply accs addr = omega (arith, supply-store accs addr (emptied (account accs addr)))

  pub balance-store_eq :
      (accs : Dict Account) (a addr : String) (acc : Account)
      → a ≡ addr
      → (balance (store accs addr acc) a ≡ acc.balance) × (balance accs a ≡ balance accs addr)
  unfolding account
  balance-store_eq accs a addr acc h = (rw (h, find-store_self accs addr acc, balance), rw h)

  pub balance-store_ne :
      (accs : Dict Account) (a addr : String) (acc : Account)
      → a ≢ addr
      → balance (store accs addr acc) a ≡ balance accs a
  unfolding account
  balance-store_ne accs a addr acc h = rw (find-store_ne accs a addr acc h, balance)

  -- The accounts, with what has left one and has not yet reached another, add up to the supply,
  -- which fits a uint64; and the escrow account holds at least the reserve.
  pub record Holds (total floating reserve : ℕ) (accs : Dict Account) : Type 0 where
    pub balanced : supply accs + floating ≡ total
    pub bounded : total < 2 ^ 64
    pub reserved : reserve ≤ balance accs module_escrow_addr

  -- A smaller reserve is held too.
  pub Holds-le :
      {t f e : ℕ} (e' : ℕ) {accs : Dict Account} → e' ≤ e → Holds t f e accs → Holds t f e' accs
  Holds-le e' le h = record {
    balanced = h.balanced;
    bounded = h.bounded;
    reserved = omega (arith, h.reserved);
  }

  pub reserve_bounded : {t f e : ℕ} {accs : Dict Account} → Holds t f e accs → e < 2 ^ 64
  reserve_bounded {accs = accs} h =
      omega (arith, balance-le-supply accs module_escrow_addr, h.balanced, h.bounded, h.reserved)

  pub Holds-floating :
      {t f e : ℕ} (f' : ℕ) {accs : Dict Account} → f ≡ f' → Holds t f e accs → Holds t f' e accs
  Holds-floating f' eq h = record {
    balanced = omega (arith, h.balanced);
    bounded = h.bounded;
    reserved = h.reserved;
  }

  -- A write that adds `n` to one account.
  gain-Holds :
      (t f e n : ℕ) (accs : Dict Account) (dst : String) (acc : Account)
      → acc.balance ≡ balance accs dst + n
      → Holds t (f + n) e accs
      → Holds t f e (store accs dst acc)
  gain-Holds t f e n accs dst acc eq h = record {
    balanced = omega (arith, supply-store accs dst acc, h.balanced);
    bounded = h.bounded;
    reserved = elim (str-cases module_escrow_addr dst) [
      | inl same ↦
          let (new, old) = balance-store_eq accs module_escrow_addr dst acc same in
          omega (arith, new, old, h.reserved)
      | inr differ ↦
          omega (arith, balance-store_ne accs module_escrow_addr dst acc differ, h.reserved)
    ];
  }

  -- A write that takes `n` from one account: from the reserve, or from a user's.
  loss-Holds :
      (t f e n : ℕ) (accs : Dict Account) (acc : Account)
      → acc.balance + n ≡ balance accs module_escrow_addr
      → Holds t f (e + n) accs
      → Holds t (f + n) e (store accs module_escrow_addr acc)
  loss-Holds t f e n accs acc eq h = record {
    balanced = omega (arith, supply-store accs module_escrow_addr acc, h.balanced);
    bounded = h.bounded;
    reserved =
        let (new, old) = balance-store_eq accs module_escrow_addr module_escrow_addr acc refl in
        omega (arith, new, h.reserved);
  }

  spend-Holds :
      (t f e n : ℕ) (accs : Dict Account) (src : String) (acc : Account)
      → module_escrow_addr ≢ src
      → acc.balance + n ≡ balance accs src
      → Holds t f e accs
      → Holds t (f + n) e (store accs src acc)
  spend-Holds t f e n accs src acc ne eq h = record {
    balanced = omega (arith, supply-store accs src acc, h.balanced);
    bounded = h.bounded;
    reserved = omega (arith, balance-store_ne accs module_escrow_addr src acc ne, h.reserved);
  }

  -- A write that adds `n` to the escrow account.
  lock-Holds :
      (t f e n : ℕ) (accs : Dict Account) (acc : Account)
      → acc.balance ≡ balance accs module_escrow_addr + n
      → Holds t (f + n) e accs
      → Holds t f (e + n) (store accs module_escrow_addr acc)
  lock-Holds t f e n accs acc eq h = record {
    balanced = omega (arith, supply-store accs module_escrow_addr acc, h.balanced);
    bounded = h.bounded;
    reserved =
        let (new, old) = balance-store_eq accs module_escrow_addr module_escrow_addr acc refl in
        omega (arith, new, h.reserved);
  }

  -- Nothing wraps: a balance with what floats is within the supply.
  no_wrap :
      (t f e n : ℕ) (accs : Dict Account) (dst : String)
      → Holds t (f + n) e accs
      → (balance accs dst + n) % 2 ^ 64 ≡ balance accs dst + n
  no_wrap t f e n accs dst h = omega (arith, balance-le-supply accs dst, h.balanced, h.bounded)

  pub accepts_escrow : accepts module_escrow_addr ≡ true
  accepts_escrow = accepts_lem module_escrow_addr (omega arith) (omega arith)

  pub accepts_treasury : accepts module_treasury_addr ≡ true
  accepts_treasury = accepts_lem module_treasury_addr (omega arith) (omega arith)

  -- What floats reaches an account.
  pub credit-Holds :
      (t f e n : ℕ) (accs : Dict Account) (dst : String)
      → accepts dst ≡ true
      → Holds t (f + n) e accs
      → Ends Never (Holds t f e) (credit accs dst n)
  unfolding credit
  credit-Holds t f e n accs dst a h = elim (Bool-cases (n == 0)) [
    | inl nothing ↦ rw nothing (returns (ground (arith, h)))
    | inr something ↦
        rw (something, a) (returns (gain-Holds t f e n accs dst _ (no_wrap t f e n accs dst h) h))
  ]

  -- What floats is locked in the escrow account.
  pub credit_escrow-Holds :
      (t f e n : ℕ) (accs : Dict Account)
      → Holds t (f + n) e accs
      → Ends Never (Holds t f (e + n)) (credit accs module_escrow_addr n)
  unfolding credit
  credit_escrow-Holds t f e n accs h = elim (Bool-cases (n == 0)) [
    | inl nothing ↦ rw nothing (returns (ground (arith, h)))
    | inr something ↦
        rw (something, accepts_escrow)
          (returns (lock-Holds t f e n accs _ (no_wrap t f e n accs module_escrow_addr h) h))
  ]

  -- The escrow account pays from its reserve, and cannot fail to.
  pub debit_escrow-Holds :
      (t f e n : ℕ) (accs : Dict Account)
      → Holds t f (e + n) accs
      → Ends Never (Holds t (f + n) e) (debit accs module_escrow_addr n)
  unfolding debit
  debit_escrow-Holds t f e n accs h = elim (Bool-cases (n == 0)) [
    | inl nothing ↦ rw nothing (returns (ground (arith, h)))
    | inr something ↦
        let enough : ltb (balance accs module_escrow_addr) n ≡ false = ground (arith, h.reserved) in
        rw (something, enough, accepts_escrow)
          (returns (loss-Holds t f e n accs _ (omega (arith, h.reserved)) h))
  ]

  -- A user pays, if the balance covers it.
  pub debit-Holds :
      (t f e n : ℕ) (accs : Dict Account) (src : String)
      → module_escrow_addr ≢ src
      → Holds t f e accs
      → Ends Any (Holds t (f + n) e) (debit accs src n)
  unfolding debit
  debit-Holds t f e n accs src ne h = elim (Bool-cases (n == 0)) [
    | inl nothing ↦ rw nothing (returns (ground (arith, h)))
    | inr something ↦ elim (Bool-cases (ltb (balance accs src) n)) [
      | inl short ↦ rw (something, short) (fails tt)
      | inr enough ↦ elim (Bool-cases (accepts src)) [
        | inl taken ↦
            rw (something, enough, taken)
              (returns (spend-Holds t f e n accs src _ ne (ground arith) h))
        | inr refused ↦ rw (something, enough, refused) (fails tt)
      ]
    ]
  ]

  -- A credit to any account, which may be refused.
  pub credit_other-Holds :
      (t f e n : ℕ) (accs : Dict Account) (dst : String)
      → Holds t (f + n) e accs
      → Ends Any (Holds t f e) (credit accs dst n)
  unfolding credit
  credit_other-Holds t f e n accs dst h = elim (Bool-cases (n == 0)) [
    | inl nothing ↦ rw nothing (returns (ground (arith, h)))
    | inr something ↦ elim (Bool-cases (accepts dst)) [
      | inl taken ↦
          rw (something, taken)
            (returns (gain-Holds t f e n accs dst _ (no_wrap t f e n accs dst h) h))
      | inr refused ↦ rw (something, refused) (fails tt)
    ]
  ]
