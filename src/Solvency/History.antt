-- ===== src/Solvency/History.antt =====
-- What the chain does over time: transactions that `SubmitTx` accepts, blocks that `commitBlock`
-- commits, minting and new parameters, in any order from a new database.
use l1_modular_blockchain.Common.{
  ℕ, ◌+◌, ◌^◌, ◌<◌, ◌≡◌, sym, subst, ap, arith, All, sum_by, String, List,
}
use l1_modular_blockchain.Types.{SignedTx, Event, Params, Service, InferenceRequest}
use l1_modular_blockchain.Outcome.{ok, Ends, returns, Any, ◌then_by◌, Ends-ok, Ends-Never}
use l1_modular_blockchain.Bolt.{Bolt, weigh}
use l1_modular_blockchain.State.{World, Account, init, mint, set_params}
use l1_modular_blockchain.Tx.Wire.{Codec}
use l1_modular_blockchain.Tx.Submit.{TxReceipt, submit_tx}
use l1_modular_blockchain.Block.{commit_block}
use l1_modular_blockchain.Solvency.Stake.{Inv, locked, stake, service_bond}
use l1_modular_blockchain.State.Bank.Funds.{credit_other-Holds}
use l1_modular_blockchain.Solvency.Blocks.{commit_block-Inv}
use l1_modular_blockchain.Solvency.Submits.{HasRoom, submit_tx-Inv}

module _ ⦃bolt : Bolt⦄ where
  open bolt use {cursor, cursor-no_rows, values-no_pairs}

  -- On a state that satisfies the invariant, Mint fails or keeps it with a supply that is larger
  -- by the amount; the new supply is assumed to fit 64 bits.
  pub mint-Inv :
      {total : ℕ} (w : World) (addr : String) (amount : ℕ)
      → Inv total w
      → total + amount < 2 ^ 64
      → Ends Any (Inv (total + amount)) (mint w addr amount)
  unfolding mint
  mint-Inv {total} w addr amount v fits =
      credit_other-Holds (total + amount) 0 (locked w) amount w.accounts addr (record {
        balanced = omega (arith, v.funded.balanced);
        bounded = fits;
        reserved = v.funded.reserved;
      })
      then_by λ accs h. returns (record {
        funded = h;
        sound = v.sound;
        owned = v.owned;
        fresh_requests = v.fresh_requests;
        fresh_services = v.fresh_services;
      })

  -- A new database satisfies the invariant, with no supply.
  pub init-Inv : Inv 0 init
  unfolding init
  init-Inv = record {
    funded = record {
      balanced =
          omega (arith, ap (sum_by λ (a : Account). a.balance) (values-no_pairs {V = Account}));
      bounded = omega arith;
      reserved = omega (
        arith,
        ap (weigh stake) (cursor-no_rows {V = InferenceRequest}),
        ap (weigh service_bond) (cursor-no_rows {V = Service}),
      );
    };
    sound = subst (All _) (sym cursor-no_rows) tt;
    owned = subst (All _) (sym cursor-no_rows) tt;
    fresh_requests = subst (All _) (sym cursor-no_rows) tt;
    fresh_services = subst (All _) (sym cursor-no_rows) tt;
  }

module _ ⦃bolt : Bolt⦄ (codec : Codec) where
  -- The states that are reached from a new database, with the amount that was minted on the way:
  -- by minting, by setting the parameters, by a transaction that is accepted while the two counters
  -- have not run out, and by a block.
  pub data Reach : ℕ → World → Type 0 where
    opened : Reach 0 init
    minted :
        {n : ℕ} {w w' : World} (addr : String) (amount : ℕ)
        → Reach n w
        → mint w addr amount ≡ ok w'
        → Reach (n + amount) w'
    configured : {n : ℕ} {w : World} (params : Params) → Reach n w → Reach n (set_params w params)
    accepted :
        {n : ℕ} {w w' : World} (tx : SignedTx) (receipt : TxReceipt)
        → Reach n w
        → HasRoom w
        → submit_tx codec w tx ≡ ok (w', receipt)
        → Reach n w'
    committed :
        {n : ℕ} {w w' : World} (time : String) (events : List Event)
        → Reach n w
        → commit_block w time ≡ ok (w', events)
        → Reach n w'

  -- In every state that is reached from a new database, by minting, by new parameters, by
  -- transactions that are accepted while the two id counters have not run out, and by blocks, in
  -- any order, the invariant holds with the amount that was minted for the supply: the balances
  -- add up to it, and the module escrow account covers all that is locked for requests and
  -- services. The minted amount is assumed to fit 64 bits.
  pub Reach-Inv : {n : ℕ} {w : World} → n < 2 ^ 64 → Reach n w → Inv n w
  Reach-Inv fits opened = init-Inv
  Reach-Inv fits (minted {n} {w} addr amount before e) =
      Ends-ok (mint-Inv w addr amount (Reach-Inv (omega arith) before) fits) e
  Reach-Inv fits (configured params before) =
      let v = Reach-Inv fits before in
      record {
        funded = v.funded;
        sound = v.sound;
        owned = v.owned;
        fresh_requests = v.fresh_requests;
        fresh_services = v.fresh_services;
      }
  Reach-Inv fits (accepted {w = w} tx receipt before room e) =
      Ends-ok (submit_tx-Inv codec w tx (Reach-Inv fits before) room) e
  Reach-Inv fits (committed {w = w} time events before e) =
      Ends-ok (commit_block-Inv w time (Reach-Inv fits before)) e

  -- In every state that is reached from a new database in that way, a block with any time can be
  -- committed: commitBlock returns a state and its events. The minted amount is assumed to fit 64
  -- bits.
  pub Reach-commit_block :
      {n : ℕ} {w : World} (time : String)
      → n < 2 ^ 64
      → Reach n w
      → (next : World × List Event) × (commit_block w time ≡ ok next)
  Reach-commit_block {w = w} time fits before =
      let done = Ends-Never (commit_block-Inv w time (Reach-Inv fits before)) in (done.0, done.1)
