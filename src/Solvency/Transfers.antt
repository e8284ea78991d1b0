-- ===== src/Solvency/Transfers.antt =====
-- About `applyTransfer` of chain/internal/state/tx.go, balance by balance.
use l1_modular_blockchain.Common.{
  ℕ, ◌+◌, ◌-◌, ◌^◌, ◌<◌, ◌≡◌, ◌≢◌, refl, sym, ◌∙◌, String, arith, ltb, ◌==◌, Bool-cases, inl, inr,
  signed, subst,
}
use l1_modular_blockchain.Types.{MsgTransfer}
use l1_modular_blockchain.Outcome.{
  Ends, returns, fails, Any, ◌then_by◌, past_guard, Ends-both, weaken,
}
use l1_modular_blockchain.Bolt.{Bolt}
use l1_modular_blockchain.State.{World, Account, module_escrow_addr}
use l1_modular_blockchain.State.Bank.{balance, credit, debit, move, account}
use l1_modular_blockchain.State.Bank.Funds.{
  Holds, debit-Holds, balance-le-supply, balance-store_eq, balance-store_ne,
}
use l1_modular_blockchain.Tx.Accounts.{apply_transfer}
use l1_modular_blockchain.Solvency.Stake.{Inv, IsSigner}

module _ ⦃bolt : Bolt⦄ where
  open bolt use {Dict, accepts}

  -- The other balances are as they were.
  abbrev SameBut : String → Dict Account → Dict Account → Type 0
  SameBut addr accs accs' = (a : String) → a ≢ addr → balance accs' a ≡ balance accs a

  debit-balance :
      (accs : Dict Account) (src : String) (n : ℕ)
      → Ends Any
          (λ accs'. (balance accs' src + n ≡ balance accs src) × SameBut src accs accs')
          (debit accs src n)
  unfolding debit
  debit-balance accs src n = elim (Bool-cases (n == 0)) [
    | inl nothing ↦ rw nothing (returns (ground arith, λ a ne. refl))
    | inr something ↦ elim (Bool-cases (ltb (balance accs src) n)) [
      | inl short ↦ rw (something, short) (fails tt)
      | inr enough ↦ elim (Bool-cases (accepts src)) [
        | inl taken ↦
            rw (something, enough, taken)
              (returns (
                ground (
                  arith,
                  (balance-store_eq accs src src
                      (record (account accs src) { balance = balance accs src - n }) refl).0,
                ),
                λ a ne. balance-store_ne accs a src _ ne,
              ))
        | inr refused ↦ rw (something, enough, refused) (fails tt)
      ]
    ]
  ]

  pub credit-balance :
      (accs : Dict Account) (dst : String) (n : ℕ)
      → balance accs dst + n < 2 ^ 64
      → Ends Any
          (λ accs'. (balance accs' dst ≡ balance accs dst + n) × SameBut dst accs accs')
          (credit accs dst n)
  unfolding credit
  credit-balance accs dst n fits = elim (Bool-cases (n == 0)) [
    | inl nothing ↦ rw nothing (returns (ground arith, λ a ne. refl))
    | inr something ↦ elim (Bool-cases (accepts dst)) [
      | inl taken ↦
          rw (something, taken)
            (returns (
              omega (arith, (balance-store_eq accs dst dst _ refl).0),
              λ a ne. balance-store_ne accs a dst _ ne,
            ))
      | inr refused ↦ rw (something, refused) (fails tt)
    ]
  ]

  pub record Transferred (from to : String) (n : ℕ) (w w' : World) : Type 0 where
    pub paid : balance w'.accounts from + n ≡ balance w.accounts from
    pub received : balance w'.accounts to ≡ balance w.accounts to + n
    pub others : (a : String) → a ≢ from → a ≢ to → balance w'.accounts a ≡ balance w.accounts a
    pub same_nonces : w'.nonces ≡ w.nonces
    pub same_requests : w'.requests ≡ w.requests
    pub same_services : w'.services ≡ w.services

  -- What moving an amount does to the balances.
  record Moved (src dst : String) (n : ℕ) (accs accs' : Dict Account) : Type 0 where
    paid : balance accs' src + n ≡ balance accs src
    received : balance accs' dst ≡ balance accs dst + n
    others : (a : String) → a ≢ src → a ≢ dst → balance accs' a ≡ balance accs a

  move-Moved :
      {total reserve : ℕ} (accs : Dict Account) (src dst : String) (n : ℕ)
      → module_escrow_addr ≢ src
      → src ≢ dst
      → Holds total 0 reserve accs
      → Ends Any (Moved src dst n accs) (move accs src dst n)
  unfolding move
  move-Moved {total} {reserve} accs src dst n not_escrow apart h =
      Ends-both (debit-balance accs src n) (debit-Holds total 0 reserve n accs src not_escrow h)
      then_by λ taken d.
          weaken
            (λ given c. record {
              paid = omega (arith, c.1 src apart, d.0.0);
              received = omega (arith, c.0, d.0.1 dst (λ e. apart (sym e)));
              others = λ a ne_src ne_dst. c.1 a ne_dst ∙ d.0.1 a ne_src;
            })
            (credit-balance taken dst n
              (omega (arith, balance-le-supply taken dst, d.1.balanced, d.1.bounded)))

  -- On a state that satisfies the invariant, a transfer between two different accounts, for a
  -- signer that is not the escrow account and that bbolt takes as a key, fails, or the signer is
  -- the account that pays: its balance falls by the amount, that of the payee rises by it, every
  -- other balance is as before, and no nonce, request and service changes.
  pub apply_transfer-Transferred :
      {total : ℕ} (w : World) (signer : String) (msg : MsgTransfer)
      → Inv total w
      → IsSigner signer
      → msg.from ≢ msg.to
      → Ends Any
          (λ w'. (msg.from ≡ signer) × Transferred msg.from msg.to msg.amount.amount w w')
          (apply_transfer w signer msg)
  unfolding apply_transfer
  apply_transfer-Transferred w signer msg v g apart = past_guard _ _ λ from. past_guard _ _ λ _.
      let same = signed msg.from signer from in
      move-Moved w.accounts msg.from msg.to msg.amount.amount
        (subst (λ a. module_escrow_addr ≢ a) (sym same) g.apart) apart v.funded
      then_by λ accs m. returns (
        same,
        record {
          paid = m.paid;
          received = m.received;
          others = m.others;
          same_nonces = refl;
          same_requests = refl;
          same_services = refl;
        },
      )
