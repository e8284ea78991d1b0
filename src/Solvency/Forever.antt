-- ===== src/Solvency/Forever.antt =====
-- About requests that are over, under any sequence of `SubmitTx` and `commitBlock`.
use l1_modular_blockchain.Common.{
  ℕ, ◌≡◌, refl, ap, ◌∙◌, String, true, some, List, Bool-cases, inl, inr,
}
use l1_modular_blockchain.Int64.{to_int64}
use l1_modular_blockchain.Types.{SignedTx, InferenceRequest, Event}
use l1_modular_blockchain.Outcome.{
  ok, Ends, returns, fails, Any, ◌then_by◌, past_guard, anything, Ends-ok,
}
use l1_modular_blockchain.Bolt.{Bolt}
use l1_modular_blockchain.State.{World}
use l1_modular_blockchain.Tx.Wire.{Codec, authenticate}
use l1_modular_blockchain.Tx.Submit.{TxReceipt, inc_nonce, submit_tx}
use l1_modular_blockchain.Block.{commit_block}
use l1_modular_blockchain.Solvency.Stake.{Inv}
use l1_modular_blockchain.Solvency.Close.{is_terminal}
use l1_modular_blockchain.Solvency.Blocks.{commit_block_all}
use l1_modular_blockchain.Solvency.Submits.{HasRoom, submit_tx-Inv}
use l1_modular_blockchain.Solvency.Replay.{dispatch-Keeps}

module _ ⦃bolt : Bolt⦄ where
  open bolt use {get, accepts}

  -- Each request that is over in the one state is the same in the other.
  abbrev Final : World → World → Type 0
  Final w w' =
      (k : ℕ) (r : InferenceRequest)
      → get w.requests k ≡ some r
      → is_terminal r.status ≡ true
      → get w'.requests k ≡ some r

  inc_nonce-requests :
      (w : World) (signer : String) → Ends Any (λ x. x.requests ≡ w.requests) (inc_nonce w signer)
  unfolding inc_nonce
  inc_nonce-requests w signer = elim (Bool-cases (accepts signer)) [
    | inl taken ↦ rw taken (returns refl)
    | inr refused ↦ rw refused (fails tt)
  ]

  submit_tx-Final :
      {total : ℕ} (codec : Codec) (w : World) (tx : SignedTx)
      → Inv total w
      → Ends Any (λ x. Final w x.0) (submit_tx codec w tx)
  unfolding submit_tx
  submit_tx-Final codec w tx v = anything (authenticate codec tx) then_by λ who _.
      past_guard _ _ λ _.
        dispatch-Keeps codec w v who.1 who.0 tx.payload (to_int64 w.height) then_by λ done kept.
        inc_nonce-requests done.0 who.1 then_by λ next same.
        returns (λ k r here end. ap (λ t. get t k) same ∙ kept.final k r here end)

module _ ⦃bolt : Bolt⦄ (codec : Codec) where
  open bolt use {get}

  -- What comes after a state: transactions that are accepted while the two counters have not run
  -- out, and blocks.
  pub data Later (w : World) : World → Type 0 where
    now : Later w w
    accepted :
        {w' w'' : World} (tx : SignedTx) (receipt : TxReceipt)
        → Later w w'
        → HasRoom w'
        → submit_tx codec w' tx ≡ ok (w'', receipt)
        → Later w w''
    committed :
        {w' w'' : World} (time : String) (events : List Event)
        → Later w w'
        → commit_block w' time ≡ ok (w'', events)
        → Later w w''

  Later-all : {total : ℕ} (w w' : World) → Inv total w → Later w w' → Inv total w' × Final w w'
  Later-all w w' v now = (v, λ k r here end. here)
  Later-all w w'' v (accepted {w'} tx receipt before room e) =
      let past = Later-all w w' v before in
      let final = Ends-ok (submit_tx-Final codec w' tx past.0) e in
      (
        Ends-ok (submit_tx-Inv codec w' tx past.0 room) e,
        λ k r here end. final k r (past.1 k r here end) end,
      )
  Later-all w w'' v (committed {w'} time events before e) =
      let past = Later-all w w' v before in
      let done = Ends-ok (commit_block_all w' time past.0) e in
      (done.0, λ k r here end. done.1.final k r (past.1 k r here end) end)

  -- From a state that satisfies the invariant, a request whose status is terminal is stored
  -- unchanged in every later state: after transactions that are accepted while the two id counters
  -- have not run out, and blocks, in any order.
  pub Later-final :
      {total : ℕ} (w w' : World) (k : ℕ) (r : InferenceRequest)
      → Inv total w
      → Later w w'
      → get w.requests k ≡ some r
      → is_terminal r.status ≡ true
      → get w'.requests k ≡ some r
  Later-final w w' k r v after here end = (Later-all w w' v after).1 k r here end
