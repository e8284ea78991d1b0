-- ===== src/Types/Events.antt =====
-- The events, each with its typed payload. The field `type` of the source's `Event` is the
-- constructor.
use l1_modular_blockchain.Common.{ℕ, String, Bool}
use l1_modular_blockchain.Int64.{ℤ}
use l1_modular_blockchain.Types.Coins.{Coin}
use l1_modular_blockchain.Types.Objects.{RequestStatus}

pub record ServiceRegisteredPayload : Type 0 where
  pub service_id : ℕ
  pub owner : String
  pub name : String
  pub description : String
  pub price : Coin

pub record InferenceRequestedPayload : Type 0 where
  pub request_id : ℕ
  pub service_id : ℕ
  pub requester : String
  pub input_hash : String
  pub input_uri : String
  pub input_text : String
  pub escrow : Coin
  pub deadline_height : ℤ

pub record ResultSubmittedPayload : Type 0 where
  pub request_id : ℕ
  pub provider : String
  pub output_hash : String
  pub output_uri : String

pub record RequestFinalizedPayload : Type 0 where
  pub request_id : ℕ
  pub provider : String
  pub paid : Coin
  pub provider_bond_returned : Coin

pub record RequestRefundedPayload : Type 0 where
  pub request_id : ℕ
  pub requester : String
  pub refunded : Coin

-- `time` is the wall clock's, which the caller of `commitBlock` gives.
pub record BlockCommittedPayload : Type 0 where
  pub height : ℤ
  pub time : String

pub record DomainRegisteredPayload : Type 0 where
  pub domain_id : ℕ
  pub model_sha256 : String
  pub runtime_id : String
  pub hardware_tag : String
  pub precision : String
  pub tokenizer_id : String
  pub description : String

pub record ChallengedPayload : Type 0 where
  pub request_id : ℕ
  pub challenger : String
  pub challenger_output_hash : String
  pub provider_output_hash : String
  pub challenger_bond : Coin

pub record VouchedPayload : Type 0 where
  pub request_id : ℕ
  pub voucher : String
  pub voucher_output_hash : String
  pub supports_provider : Bool
  pub bond : Coin

pub record RequestDismissedPayload : Type 0 where
  pub request_id : ℕ
  pub provider : String
  pub challenger : String
  pub paid : Coin
  pub provider_bond_returned : Coin
  pub challenger_bond_forfeit : Coin
  pub voucher_count : ℕ

pub record ServiceUpdatedPayload : Type 0 where
  pub service_id : ℕ
  pub owner : String
  pub description : String
  pub price : Coin

pub record ServiceDeactivatedPayload : Type 0 where
  pub service_id : ℕ
  pub owner : String
  pub bond_refunded : Coin

pub record DomainDeactivatedPayload : Type 0 where
  pub domain_id : ℕ
  pub authority : String
  pub services_deactivated : ℕ
  pub requests_voided : ℕ

pub record RequestVoidedPayload : Type 0 where
  pub request_id : ℕ
  pub service_id : ℕ
  pub domain_id : ℕ
  pub prior_status : RequestStatus
  pub requester : String
  pub escrow_refunded : Coin
  pub provider : String
  pub provider_bond_returned : Coin
  pub challenger : String
  pub challenger_bond_returned : Coin
  pub voucher_bonds_returned : ℕ

pub record RequestSlashedPayload : Type 0 where
  pub request_id : ℕ
  pub provider : String
  pub challenger : String
  pub refunded : Coin
  pub provider_bond_slashed : Coin
  pub challenger_bond_returned : Coin
  pub voucher_bonds_forfeited_to_treasury : ℕ
  pub challenger_voucher_bonds_returned : ℕ

pub data Payload : Type 0 where
  service_registered : ServiceRegisteredPayload → Payload
  inference_requested : InferenceRequestedPayload → Payload
  result_submitted : ResultSubmittedPayload → Payload
  request_finalized : RequestFinalizedPayload → Payload
  request_refunded : RequestRefundedPayload → Payload
  block_committed : BlockCommittedPayload → Payload
  domain_registered : DomainRegisteredPayload → Payload
  request_challenged : ChallengedPayload → Payload
  request_slashed : RequestSlashedPayload → Payload
  request_vouched : VouchedPayload → Payload
  request_dismissed : RequestDismissedPayload → Payload
  service_updated : ServiceUpdatedPayload → Payload
  service_deactivated : ServiceDeactivatedPayload → Payload
  domain_deactivated : DomainDeactivatedPayload → Payload
  request_voided : RequestVoidedPayload → Payload

-- `TxHash` is never set.
pub record Event : Type 0 where
  pub block_height : ℤ
  pub payload : Payload
