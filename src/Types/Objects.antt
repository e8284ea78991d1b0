-- ===== src/Types/Objects.antt =====
-- Services, verification domains, attestations, requests, challenges and vouchers.
use l1_modular_blockchain.Common.{ℕ, String, Bool, Option, List}
use l1_modular_blockchain.Int64.{ℤ}
use l1_modular_blockchain.Types.Coins.{Coin}

pub record Service : Type 0 where
  pub id : ℕ
  pub owner : String
  pub name : String
  pub description : String
  pub price : Coin
  pub verification_domain_id : ℕ
  pub active : Bool
  pub created_at_height : ℤ
  pub registration_bond : Coin

pub data RequestStatus : Type 0 where
  pending submitted challenged finalized slashed refunded : RequestStatus

pub record Attestation : Type 0 where
  pub provider : String
  pub verification_domain_id : ℕ
  pub model_sha256 : String
  pub runtime_id : String
  pub hardware_tag : String
  pub precision : String
  pub tokenizer_id : String
  pub input_hash : String
  pub output_hash : String
  pub produced_at : ℤ
  pub signature_hex : String

pub record VerificationDomain : Type 0 where
  pub id : ℕ
  pub model_sha256 : String
  pub runtime_id : String
  pub hardware_tag : String
  pub precision : String
  pub tokenizer_id : String
  pub description : String
  pub registered_at : ℤ
  pub active : Bool
  pub voucher_margin : ℤ

pub record Result : Type 0 where
  pub output_hash : String
  pub output_uri : String
  pub output_text : String
  pub attestation : Attestation

pub record Challenge : Type 0 where
  pub challenger : String
  pub posted_at : ℤ
  pub attestation : Attestation
  pub bond : Coin

pub record Voucher : Type 0 where
  pub voucher : String
  pub posted_at : ℤ
  pub attestation : Attestation
  pub bond : Coin
  pub supports_provider : Bool

pub record InferenceRequest : Type 0 where
  pub id : ℕ
  pub service_id : ℕ
  pub requester : String
  pub input_hash : String
  pub input_uri : String
  pub input_text : String
  pub escrow : Coin
  pub deadline_height : ℤ
  pub status : RequestStatus
  pub created_at_height : ℤ
  pub finalized_at_height : ℤ
  pub result : Option Result
  pub paid : Option Coin
  pub submitted_at_height : ℤ
  pub challenges : List Challenge
  pub provider_bond : Option Coin
  pub vouchers : List Voucher
