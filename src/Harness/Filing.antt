-- ===== src/Harness/Filing.antt =====
-- `fileVouch` and `fileChallenge` of determinism-harness/cmd/harness/main.go. The network may fail at
-- any call; here the chain answers.
use l1_modular_blockchain.Common.{ℕ, String, List}
use l1_modular_blockchain.Int64.{pos}
use l1_modular_blockchain.Types.{
  Attestation, VerificationDomain, InferenceRequest, Result, MsgVouch, MsgChallenge,
}
use l1_modular_blockchain.Outcome.{Outcome, ◌>>=◌}
use l1_modular_blockchain.Bolt.{Bolt}
use l1_modular_blockchain.State.{World, get_domain}
use l1_modular_blockchain.Tx.Wire.{Codec}
use l1_modular_blockchain.Tx.Submit.{TxReceipt}
use l1_modular_blockchain.Api.Keyring.{Signing}
use l1_modular_blockchain.Api.Sign.{Encoder, sign_with}

-- `signer`
pub record Signer : Type 0 where
  pub name : String
  pub address : String
  pub pub_key_hex : String
  pub priv_key : List ℕ

-- The attestation with the domain's tuple. It is not signed.
abbrev pub replay_attestation :
    Signer → VerificationDomain → InferenceRequest → String → Attestation
replay_attestation signer dom full hash = record {
  provider = signer.address;
  verification_domain_id = dom.id;
  model_sha256 = dom.model_sha256;
  runtime_id = dom.runtime_id;
  hardware_tag = dom.hardware_tag;
  precision = dom.precision;
  tokenizer_id = dom.tokenizer_id;
  input_hash = full.input_hash;
  output_hash = hash;
  produced_at = pos 0;
  signature_hex = "";
}

abbrev pub vouch_message : Signer → VerificationDomain → InferenceRequest → ℕ → String → MsgVouch
vouch_message signer dom full id hash = record {
  voucher = signer.address;
  request_id = id;
  attestation = replay_attestation signer dom full hash;
}

abbrev pub challenge_message :
    Signer → VerificationDomain → InferenceRequest → ℕ → String → MsgChallenge
challenge_message signer dom full id hash = record {
  challenger = signer.address;
  request_id = id;
  attestation = replay_attestation signer dom full hash;
}

module _ ⦃bolt : Bolt⦄ (codec : Codec) (signing : Signing codec) (encoder : Encoder)
    (signer : Signer) where
  unfoldable pub file_vouch_tx :
      World → ℕ → String → InferenceRequest → Result → Outcome (World × TxReceipt)
  file_vouch_tx w id hash full result = do
    dom ← get_domain w result.attestation.verification_domain_id
    sign_with codec signing signer.priv_key signer.address signer.pub_key_hex w "vouch"
        (encoder.vouch (vouch_message signer dom full id hash))

  unfoldable pub file_challenge_tx :
      World → ℕ → String → InferenceRequest → Result → Outcome (World × TxReceipt)
  file_challenge_tx w id hash full result = do
    dom ← get_domain w result.attestation.verification_domain_id
    sign_with codec signing signer.priv_key signer.address signer.pub_key_hex w "challenge"
        (encoder.challenge (challenge_message signer dom full id hash))
