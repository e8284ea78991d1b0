-- ===== src/Api/Sign.antt =====
-- `signAndSubmit` of chain/internal/api/demo.go. The clients in inference-node and
-- determinism-harness sign in the same way.
use l1_modular_blockchain.Common.{ℕ, String, Option, List}
use l1_modular_blockchain.Types.{
  SignedTx, malformed_hex, malformed_payload, panicked, MsgRegisterService, MsgRequestInference,
  MsgRegisterDomain, MsgChallenge, MsgVouch, MsgUpdateService, MsgDeactivateService,
  MsgDeactivateDomain, MsgResolveChallenge,
}
use l1_modular_blockchain.Outcome.{Outcome, ok, ◌>>=◌, or_fail}
use l1_modular_blockchain.Bolt.{Bolt}
use l1_modular_blockchain.State.{World}
use l1_modular_blockchain.Tx.Wire.{Codec, decode_hex, encode_hex, canonical_bytes}
use l1_modular_blockchain.Tx.Submit.{TxReceipt, next_nonce, submit_tx}
use l1_modular_blockchain.Api.Keyring.{Signing, KeyringEntry, load_key}

-- `json.Marshal` of the messages.
pub record Encoder : Type 0 where
  pub register_service : MsgRegisterService → String
  pub request_inference : MsgRequestInference → String
  pub register_domain : MsgRegisterDomain → String
  pub challenge : MsgChallenge → String
  pub vouch : MsgVouch → String
  pub update_service : MsgUpdateService → String
  pub deactivate_service : MsgDeactivateService → String
  pub deactivate_domain : MsgDeactivateDomain → String
  pub resolve_challenge : MsgResolveChallenge → String

abbrev pub unsigned_tx : String → ℕ → String → String → SignedTx
unsigned_tx type nonce pub_key_hex payload = record {
  type = type;
  nonce = nonce;
  pub_key_hex = pub_key_hex;
  signature_hex = "";
  payload = payload;
}

-- The envelope with the signature over its canonical bytes.
unfoldable pub sign_tx :
    (codec : Codec) → Signing codec → List ℕ → String → ℕ → String → String → Outcome SignedTx
sign_tx codec signing priv type nonce pub_key_hex payload = do
  let tx = unsigned_tx type nonce pub_key_hex payload
  canonical ← or_fail (canonical_bytes codec tx) malformed_payload
  sig ← or_fail (signing.sign priv canonical) panicked
  ok (record tx { signature_hex = encode_hex sig })

module _ ⦃bolt : Bolt⦄ where
  -- The nonce is read, the envelope signed, and the transaction submitted.
  unfoldable pub sign_with :
      (codec : Codec)
      → Signing codec
      → List ℕ
      → String
      → String
      → World
      → String
      → String
      → Outcome (World × TxReceipt)
  unfolding sign_tx
  sign_with codec signing priv addr pub_key_hex w type payload = do
    tx ← sign_tx codec signing priv type (next_nonce w addr) pub_key_hex payload
    submit_tx codec w tx

  unfoldable pub sign_and_submit :
      (codec : Codec)
      → Signing codec
      → Option (List KeyringEntry)
      → World
      → String
      → String
      → String
      → Outcome (World × TxReceipt)
  sign_and_submit codec signing keyring w name type payload = do
    key ← load_key keyring name
    priv ← or_fail (decode_hex key.priv_key_hex) malformed_hex
    pub_key ← or_fail (decode_hex key.pub_key_hex) malformed_hex
    sign_with codec signing priv key.address key.pub_key_hex w type payload
