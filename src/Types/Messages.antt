-- ===== src/Types/Messages.antt =====
-- The messages that a transaction carries, and its signed envelope.
use l1_modular_blockchain.Common.{ℕ, String}
use l1_modular_blockchain.Int64.{ℤ}
use l1_modular_blockchain.Types.Coins.{Coin}
use l1_modular_blockchain.Types.Objects.{Attestation, Result}

pub record MsgRegisterService : Type 0 where
  pub owner : String
  pub name : String
  pub description : String
  pub price : Coin
  pub verification_domain_id : ℕ

pub record MsgRequestInference : Type 0 where
  pub requester : String
  pub service_id : ℕ
  pub input_hash : String
  pub input_uri : String
  pub input_text : String
  pub max_price : Coin
  pub deadline_height : ℤ

pub record MsgSubmitResult : Type 0 where
  pub provider : String
  pub request_id : ℕ
  pub result : Result

pub record MsgTransfer : Type 0 where
  pub from : String
  pub to : String
  pub amount : Coin

pub record MsgChallenge : Type 0 where
  pub challenger : String
  pub request_id : ℕ
  pub attestation : Attestation

pub record MsgVouch : Type 0 where
  pub voucher : String
  pub request_id : ℕ
  pub attestation : Attestation

pub record MsgUpdateService : Type 0 where
  pub owner : String
  pub service_id : ℕ
  pub description : String
  pub price : Coin

pub record MsgDeactivateService : Type 0 where
  pub owner : String
  pub service_id : ℕ

pub record MsgDeactivateDomain : Type 0 where
  pub authority : String
  pub domain_id : ℕ

pub record MsgResolveChallenge : Type 0 where
  pub authority : String
  pub request_id : ℕ
  pub decision : String

pub record MsgRegisterDomain : Type 0 where
  pub authority : String
  pub model_sha256 : String
  pub runtime_id : String
  pub hardware_tag : String
  pub precision : String
  pub tokenizer_id : String
  pub description : String
  pub voucher_margin : ℤ

-- `type` is the text of the discriminator, `payload` the raw JSON.
pub record SignedTx : Type 0 where
  pub type : String
  pub nonce : ℕ
  pub pub_key_hex : String
  pub signature_hex : String
  pub payload : String
