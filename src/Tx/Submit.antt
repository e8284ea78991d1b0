-- ===== src/Tx/Submit.antt =====
-- `SubmitTx`: authentication, the nonce, the message's handler, and the next nonce. The handler's
-- writes and the nonce's stand in one bbolt transaction.
use l1_modular_blockchain.Common.{
  ℕ, ◌+◌, ◌%◌, ◌^◌, String, Bool, false, not, Option, none, some, List, [], ◌∷◌, ◌==◌,
}
use l1_modular_blockchain.Int64.{ℤ, to_int64}
use l1_modular_blockchain.Types.{SignedTx, Event, invalid_nonce, malformed_payload}
use l1_modular_blockchain.Outcome.{Outcome, ok, ◌>>=◌, ◌>>◌, refuse_if, or_fail}
use l1_modular_blockchain.Bolt.{Bolt}
use l1_modular_blockchain.State.{World}
use l1_modular_blockchain.State.Bank.{put_text}
use l1_modular_blockchain.Tx.Wire.{
  Codec, TxType, register_service, request_inference, submit_result, transfer, register_domain,
  challenge, vouch, update_service, deactivate_service, deactivate_domain, resolve_challenge,
  authenticate,
}
use l1_modular_blockchain.Tx.Services.{
  apply_register_service, apply_update_service, apply_deactivate_service,
}
use l1_modular_blockchain.Tx.Requests.{apply_request_inference, apply_submit_result}
use l1_modular_blockchain.Tx.Disputes.{apply_challenge, apply_vouch, apply_resolve_challenge}
use l1_modular_blockchain.Tx.Domains.{apply_register_domain, apply_deactivate_domain}
use l1_modular_blockchain.Tx.Accounts.{apply_transfer}

-- `TxReceipt`, with the events to emit.
pub record TxReceipt : Type 0 where
  pub type : TxType
  pub new_id : ℕ
  pub finalized : Bool
  pub pending_events : List Event

abbrev pub receipt : TxType → ℕ → Bool → List Event → TxReceipt
receipt type id done events = record {
  type = type;
  new_id = id;
  finalized = done;
  pending_events = events;
}

abbrev pub nonce_or_zero : Option ℕ → ℕ
nonce_or_zero none = 0
nonce_or_zero (some n) = n

module _ ⦃bolt : Bolt⦄ where
  open bolt use {find}

  abbrev pub next_nonce : World → String → ℕ
  next_nonce w addr = nonce_or_zero (find w.nonces addr)

  unfoldable pub inc_nonce : World → String → Outcome World
  inc_nonce w addr = do
    nonces ← put_text w.nonces addr ((next_nonce w addr + 1) % 2 ^ 64)
    ok (record w { nonces = nonces })

  -- The switch of `SubmitTx` on the message's type.
  unfoldable pub dispatch :
      Codec → World → String → TxType → String → ℤ → Outcome (World × TxReceipt)
  dispatch codec w signer register_service payload height = do
    msg ← or_fail (codec.register_service payload) malformed_payload
    (w', id, event) ← apply_register_service w signer msg height
    ok (w', receipt register_service id false (event ∷ []))
  dispatch codec w signer request_inference payload height = do
    msg ← or_fail (codec.request_inference payload) malformed_payload
    (w', id, event) ← apply_request_inference w signer msg height
    ok (w', receipt request_inference id false (event ∷ []))
  dispatch codec w signer submit_result payload height = do
    msg ← or_fail (codec.submit_result payload) malformed_payload
    (w', done, events) ← apply_submit_result w signer msg height
    ok (w', receipt submit_result 0 done events)
  dispatch codec w signer transfer payload height = do
    msg ← or_fail (codec.transfer payload) malformed_payload
    w' ← apply_transfer w signer msg
    ok (w', receipt transfer 0 false [])
  dispatch codec w signer register_domain payload height = do
    msg ← or_fail (codec.register_domain payload) malformed_payload
    (w', id, event) ← apply_register_domain w signer msg height
    ok (w', receipt register_domain id false (event ∷ []))
  dispatch codec w signer challenge payload height = do
    msg ← or_fail (codec.challenge payload) malformed_payload
    (w', event) ← apply_challenge w signer msg height
    ok (w', receipt challenge 0 false (event ∷ []))
  dispatch codec w signer vouch payload height = do
    msg ← or_fail (codec.vouch payload) malformed_payload
    (w', event) ← apply_vouch w signer msg height
    ok (w', receipt vouch 0 false (event ∷ []))
  dispatch codec w signer update_service payload height = do
    msg ← or_fail (codec.update_service payload) malformed_payload
    (w', event) ← apply_update_service w signer msg height
    ok (w', receipt update_service 0 false (event ∷ []))
  dispatch codec w signer deactivate_service payload height = do
    msg ← or_fail (codec.deactivate_service payload) malformed_payload
    (w', event) ← apply_deactivate_service w signer msg height
    ok (w', receipt deactivate_service 0 false (event ∷ []))
  dispatch codec w signer deactivate_domain payload height = do
    msg ← or_fail (codec.deactivate_domain payload) malformed_payload
    (w', events) ← apply_deactivate_domain w signer msg height
    ok (w', receipt deactivate_domain 0 false events)
  dispatch codec w signer resolve_challenge payload height = do
    msg ← or_fail (codec.resolve_challenge payload) malformed_payload
    (w', events) ← apply_resolve_challenge w signer msg height
    ok (w', receipt resolve_challenge 0 false events)

  unfoldable pub submit_tx : Codec → World → SignedTx → Outcome (World × TxReceipt)
  submit_tx codec w tx = do
    (kind, signer) ← authenticate codec tx
    refuse_if (not (tx.nonce == next_nonce w signer)) invalid_nonce
    (w', result) ← dispatch codec w signer kind tx.payload (to_int64 w.height)
    w'' ← inc_nonce w' signer
    ok (w'', result)
