-- ===== src/Solvency/Submits.antt =====
-- About `SubmitTx` as a whole, over its eleven messages, and the invariant.
use l1_modular_blockchain.Common.{ℕ, ◌+◌, ◌^◌, ◌<◌, String}
use l1_modular_blockchain.Int64.{ℤ, to_int64}
use l1_modular_blockchain.Types.{SignedTx}
use l1_modular_blockchain.Outcome.{Ends, returns, Any, ◌then_by◌, past_guard, or_fail-Ends}
use l1_modular_blockchain.Bolt.{Bolt}
use l1_modular_blockchain.State.{World}
use l1_modular_blockchain.Tx.Wire.{
  Codec, TxType, register_service, request_inference, submit_result, transfer, register_domain,
  challenge, vouch, update_service, deactivate_service, deactivate_domain, resolve_challenge,
}
use l1_modular_blockchain.Tx.Submit.{dispatch, inc_nonce, submit_tx}
use l1_modular_blockchain.Solvency.Stake.{Inv, IsSigner}
use l1_modular_blockchain.Solvency.ServiceTxs.{
  apply_register_service-Inv, apply_update_service-Inv, apply_deactivate_service-Inv,
}
use l1_modular_blockchain.Solvency.RequestTxs.{apply_request_inference-Inv, apply_submit_result-Inv}
use l1_modular_blockchain.Solvency.DisputeTxs.{
  apply_challenge-Inv, apply_vouch-Inv, apply_resolve_challenge-Inv,
}
use l1_modular_blockchain.Solvency.DomainTxs.{
  apply_transfer-Inv, apply_register_domain-Inv, apply_deactivate_domain-Inv,
}
use l1_modular_blockchain.Solvency.Signers.{authenticate-IsSigner}

module _ ⦃bolt : Bolt⦄ where
  open bolt use {accepts, store}

  -- The two counters that a transaction may take a number from have one left.
  pub record HasRoom (w : World) : Type 0 where
    pub services : w.next_svc_id + 1 < 2 ^ 64
    pub requests : w.next_req_id + 1 < 2 ^ 64

module _ ⦃bolt : Bolt⦄ {total : ℕ} where
  open bolt use {accepts, store}

  dispatch-Inv :
      (codec : Codec) (w : World) (v : Inv total w) (room : HasRoom w) (signer : String)
      (g : IsSigner signer) (kind : TxType) (payload : String) (height : ℤ)
      → Ends Any (λ x. Inv total x.0) (dispatch codec w signer kind payload height)
  unfolding dispatch
  dispatch-Inv codec w v room signer g register_service payload height =
      or_fail-Ends {P = λ _. Unit {0}} _ _ (λ _ _. tt) then_by λ msg _.
      apply_register_service-Inv w v signer g height msg room.services then_by λ a h. returns h
  dispatch-Inv codec w v room signer g request_inference payload height =
      or_fail-Ends {P = λ _. Unit {0}} _ _ (λ _ _. tt) then_by λ msg _.
      apply_request_inference-Inv w v signer g height msg room.requests then_by λ a h. returns h
  dispatch-Inv codec w v room signer g submit_result payload height =
      or_fail-Ends {P = λ _. Unit {0}} _ _ (λ _ _. tt) then_by λ msg _.
      apply_submit_result-Inv w v signer g height msg then_by λ a h. returns h
  dispatch-Inv codec w v room signer g transfer payload height =
      or_fail-Ends {P = λ _. Unit {0}} _ _ (λ _ _. tt) then_by λ msg _.
      apply_transfer-Inv w v signer g msg then_by λ a h. returns h
  dispatch-Inv codec w v room signer g register_domain payload height =
      or_fail-Ends {P = λ _. Unit {0}} _ _ (λ _ _. tt) then_by λ msg _.
      apply_register_domain-Inv w v signer g msg height then_by λ a h. returns h
  dispatch-Inv codec w v room signer g challenge payload height =
      or_fail-Ends {P = λ _. Unit {0}} _ _ (λ _ _. tt) then_by λ msg _.
      apply_challenge-Inv w v signer g height msg then_by λ a h. returns h
  dispatch-Inv codec w v room signer g vouch payload height =
      or_fail-Ends {P = λ _. Unit {0}} _ _ (λ _ _. tt) then_by λ msg _.
      apply_vouch-Inv w v signer g height msg then_by λ a h. returns h
  dispatch-Inv codec w v room signer g update_service payload height =
      or_fail-Ends {P = λ _. Unit {0}} _ _ (λ _ _. tt) then_by λ msg _.
      apply_update_service-Inv w v signer g height msg then_by λ a h. returns h
  dispatch-Inv codec w v room signer g deactivate_service payload height =
      or_fail-Ends {P = λ _. Unit {0}} _ _ (λ _ _. tt) then_by λ msg _.
      apply_deactivate_service-Inv w v signer g height msg then_by λ a h. returns h
  dispatch-Inv codec w v room signer g deactivate_domain payload height =
      or_fail-Ends {P = λ _. Unit {0}} _ _ (λ _ _. tt) then_by λ msg _.
      apply_deactivate_domain-Inv w v signer g msg height then_by λ a h. returns h
  dispatch-Inv codec w v room signer g resolve_challenge payload height =
      or_fail-Ends {P = λ _. Unit {0}} _ _ (λ _ _. tt) then_by λ msg _.
      apply_resolve_challenge-Inv w v signer g height msg then_by λ a h. returns h

  inc_nonce-Inv :
      (w : World) (v : Inv total w) (signer : String) (g : IsSigner signer)
      → Ends Any (Inv total) (inc_nonce w signer)
  unfolding inc_nonce
  inc_nonce-Inv w v signer g = rw g.storable (
      returns (record {
        funded = v.funded;
        sound = v.sound;
        owned = v.owned;
        fresh_requests = v.fresh_requests;
        fresh_services = v.fresh_services;
      }))

  -- On a state that satisfies the invariant and whose two id counters have not run out, SubmitTx
  -- fails or returns a state that satisfies the invariant with the same supply, whatever the
  -- envelope is.
  pub submit_tx-Inv :
      (codec : Codec) (w : World) (tx : SignedTx)
      → Inv total w
      → HasRoom w
      → Ends Any (λ x. Inv total x.0) (submit_tx codec w tx)
  unfolding submit_tx
  submit_tx-Inv codec w tx v room = authenticate-IsSigner codec tx then_by λ who g.
      past_guard _ _ λ _.
        dispatch-Inv codec w v room who.1 g who.0 tx.payload (to_int64 w.height) then_by λ done h.
        inc_nonce-Inv done.0 h who.1 g then_by λ next n. returns n
