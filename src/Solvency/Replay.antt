-- ===== src/Solvency/Replay.antt =====
-- About the nonce of a transaction that `SubmitTx` accepts.
use l1_modular_blockchain.Common.{
  ℕ, ◌+◌, ◌%◌, ◌^◌, ◌≡◌, ◌≢◌, sym, ap, ◌∙◌, String, true, false, not, some, arith, ◌==◌, Bool-cases,
  inl, inr,
}
use l1_modular_blockchain.Int64.{ℤ, to_int64}
use l1_modular_blockchain.Types.{SignedTx, InferenceRequest}
use l1_modular_blockchain.Outcome.{
  ok, Ends, returns, fails, Any, ◌then_by◌, past_guard, or_fail, anything, Ends-ok,
}
use l1_modular_blockchain.Bolt.{Bolt}
use l1_modular_blockchain.State.{World}
use l1_modular_blockchain.Tx.Wire.{
  Codec, TxType, register_service, request_inference, submit_result, transfer, register_domain,
  challenge, vouch, update_service, deactivate_service, deactivate_domain, resolve_challenge,
  authenticate,
}
use l1_modular_blockchain.Tx.Submit.{
  TxReceipt, dispatch, inc_nonce, next_nonce, nonce_or_zero, submit_tx,
}
use l1_modular_blockchain.Solvency.Stake.{Inv}
use l1_modular_blockchain.Solvency.Close.{is_terminal}
use l1_modular_blockchain.Solvency.Finality.{Keeps}
use l1_modular_blockchain.Solvency.Untouched.{
  apply_transfer-Keeps, apply_register_service-Keeps, apply_update_service-Keeps,
  apply_deactivate_service-Keeps, apply_register_domain-Keeps, apply_request_inference-Keeps,
  apply_submit_result-Keeps, apply_challenge-Keeps, apply_vouch-Keeps,
  apply_resolve_challenge-Keeps, apply_deactivate_domain-Keeps,
}

nonce_due : (a b : ℕ) → not (a == b) ≡ false → a ≡ b
nonce_due a b h = ground arith

module _ ⦃bolt : Bolt⦄ where
  open bolt use {get, find, store, find-store_self, accepts}

  pub dispatch-Keeps :
      {total : ℕ} (codec : Codec) (w : World) (v : Inv total w) (signer : String) (kind : TxType)
      (payload : String) (height : ℤ)
      → Ends Any (λ x. Keeps w x.0) (dispatch codec w signer kind payload height)
  unfolding dispatch
  dispatch-Keeps codec w v signer register_service payload height =
      anything (or_fail _ _) then_by λ msg _.
      apply_register_service-Keeps w signer msg height then_by λ a h. returns h
  dispatch-Keeps codec w v signer request_inference payload height =
      anything (or_fail _ _) then_by λ msg _.
      apply_request_inference-Keeps w v signer msg height then_by λ a h. returns h
  dispatch-Keeps codec w v signer submit_result payload height =
      anything (or_fail _ _) then_by λ msg _.
      apply_submit_result-Keeps w v signer msg height then_by λ a h. returns h
  dispatch-Keeps codec w v signer transfer payload height = anything (or_fail _ _) then_by λ msg _.
      apply_transfer-Keeps w signer msg then_by λ a h. returns h
  dispatch-Keeps codec w v signer register_domain payload height =
      anything (or_fail _ _) then_by λ msg _.
      apply_register_domain-Keeps w signer msg height then_by λ a h. returns h
  dispatch-Keeps codec w v signer challenge payload height = anything (or_fail _ _) then_by λ msg _.
      apply_challenge-Keeps w v signer msg height then_by λ a h. returns h
  dispatch-Keeps codec w v signer vouch payload height = anything (or_fail _ _) then_by λ msg _.
      apply_vouch-Keeps w v signer msg height then_by λ a h. returns h
  dispatch-Keeps codec w v signer update_service payload height =
      anything (or_fail _ _) then_by λ msg _.
      apply_update_service-Keeps w signer msg height then_by λ a h. returns h
  dispatch-Keeps codec w v signer deactivate_service payload height =
      anything (or_fail _ _) then_by λ msg _.
      apply_deactivate_service-Keeps w signer msg height then_by λ a h. returns h
  dispatch-Keeps codec w v signer deactivate_domain payload height =
      anything (or_fail _ _) then_by λ msg _.
      apply_deactivate_domain-Keeps w v signer msg height then_by λ a h. returns h
  dispatch-Keeps codec w v signer resolve_challenge payload height =
      anything (or_fail _ _) then_by λ msg _.
      apply_resolve_challenge-Keeps w v signer msg height then_by λ a h. returns h

  -- What an accepted transaction shows of its signer's nonce, and what it leaves alone.
  pub record Accepts (tx : SignedTx) (signer : String) (w w' : World) : Type 0 where
    pub due : tx.nonce ≡ next_nonce w signer
    pub used : next_nonce w' signer ≡ (tx.nonce + 1) % 2 ^ 64
    pub final :
        (k : ℕ) (r : InferenceRequest)
        → get w.requests k ≡ some r
        → is_terminal r.status ≡ true
        → get w'.requests k ≡ some r

  inc_nonce-nonce :
      (w w' : World) (signer : String) (tx : SignedTx)
      → Keeps w w'
      → tx.nonce ≡ next_nonce w signer
      → Ends Any (Accepts tx signer w) (inc_nonce w' signer)
  unfolding inc_nonce
  inc_nonce-nonce w w' signer tx kept due = elim (Bool-cases (accepts signer)) [
    | inl taken ↦ rw taken (
        returns (record {
          due = due;
          used =
              ap nonce_or_zero (find-store_self w'.nonces signer _)
              ∙ ap (λ n. (nonce_or_zero (find n signer) + 1) % 2 ^ 64) kept.same_nonces
              ∙ ap (λ n. (n + 1) % 2 ^ 64) (sym due);
          final = kept.final;
        }))
    | inr refused ↦ rw refused (fails tt)
  ]

  -- On a state that satisfies the invariant, SubmitTx of an envelope with a signer fails, or the
  -- envelope's nonce is the signer's next one, the signer's next nonce afterwards is that nonce
  -- plus one modulo 2 ^ 64, and each request whose status is terminal is unchanged.
  pub submit_tx-Accepts :
      {total : ℕ} (codec : Codec) (w : World) (tx : SignedTx) (kind : TxType) (signer : String)
      → Inv total w
      → authenticate codec tx ≡ ok (kind, signer)
      → Ends Any (λ x. Accepts tx signer w x.0) (submit_tx codec w tx)
  unfolding submit_tx
  submit_tx-Accepts codec w tx kind signer v who = rw who (
      past_guard _ _ λ due.
        dispatch-Keeps codec w v signer kind tx.payload (to_int64 w.height) then_by λ done kept.
        inc_nonce-nonce w done.0 signer tx kept (nonce_due tx.nonce (next_nonce w signer) due)
        then_by λ next n. returns n)

  -- A transaction with another nonce than the signer's is refused.
  wrong_nonce :
      (codec : Codec) (w : World) (tx : SignedTx) (kind : TxType) (signer : String)
      → authenticate codec tx ≡ ok (kind, signer)
      → tx.nonce ≢ next_nonce w signer
      → Ends Any (λ x. ⊥) (submit_tx codec w tx)
  unfolding submit_tx
  wrong_nonce codec w tx kind signer who differ =
      rw who (past_guard _ _ λ due. absurd (differ (nonce_due tx.nonce (next_nonce w signer) due)))

  -- On a state that satisfies the invariant, a transaction that SubmitTx has accepted is refused
  -- when it is submitted again in the state after it.
  pub submit_tx-replay :
      {total : ℕ} (codec : Codec) (w w' : World) (tx : SignedTx) (kind : TxType) (signer : String)
      (receipt : TxReceipt)
      → Inv total w
      → authenticate codec tx ≡ ok (kind, signer)
      → submit_tx codec w tx ≡ ok (w', receipt)
      → (result : World × TxReceipt) → submit_tx codec w' tx ≢ ok result
  submit_tx-replay codec w w' tx kind signer receipt v who done result again =
      let h = Ends-ok (submit_tx-Accepts codec w tx kind signer v who) done in
      Ends-ok (wrong_nonce codec w' tx kind signer who (λ same. omega (arith, same, h.used))) again
