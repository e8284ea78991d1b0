-- ===== src/Node/Handler.antt =====
-- `handleEvent` of inference-node/cmd/inferenced/main.go: what a worker submits for a request. A call
-- of the chain that fails is `none`. MALICIOUS_PROVIDER, a switch for demonstrations, is off.
use l1_modular_blockchain.Common.{ℕ, String, Option, none, some, if◌then◌else◌, str_eq}
use l1_modular_blockchain.Int64.{ℤ}
use l1_modular_blockchain.Types.{
  Service, InferenceRequest, InferenceRequestedPayload, Attestation, MsgSubmitResult,
}
use l1_modular_blockchain.State.Reads.{status_text}
use l1_modular_blockchain.Tx.Wire.{Codec}
use l1_modular_blockchain.Node.Executor.{Model, Execution, execute}

pub record NodeConfig : Type 0 where
  pub model_sha256 : String
  pub runtime_id : String
  pub precision : String
  pub hardware_tag : String
  pub tokenizer_id : String

-- What the worker is: its configuration and address, how it signs an attestation, the prompt that it
-- makes up for a request without one, and the height that it has last seen.
pub record Worker : Type 0 where
  pub config : NodeConfig
  pub address : String
  pub sign_attestation : Attestation → String
  pub default_prompt : ℕ → String
  pub height : ℤ

abbrev pub prompt_of : Worker → ℕ → String → String
prompt_of worker id input_text =
    if str_eq input_text "" then worker.default_prompt id else input_text

abbrev pub unsigned_attestation :
    Worker → Service → InferenceRequestedPayload → Execution → Attestation
unsigned_attestation worker svc p result = record {
  provider = worker.address;
  verification_domain_id = svc.verification_domain_id;
  model_sha256 = worker.config.model_sha256;
  runtime_id = worker.config.runtime_id;
  hardware_tag = worker.config.hardware_tag;
  precision = worker.config.precision;
  tokenizer_id = worker.config.tokenizer_id;
  input_hash = p.input_hash;
  output_hash = result.output_hash;
  produced_at = worker.height;
  signature_hex = "";
}

abbrev pub result_message :
    Worker → Service → InferenceRequestedPayload → Execution → MsgSubmitResult
result_message worker svc p result =
    let attestation = unsigned_attestation worker svc p result in
    record {
      provider = worker.address;
      request_id = p.request_id;
      result = record {
        output_hash = result.output_hash;
        output_uri = result.output_uri;
        output_text = result.output;
        attestation = record attestation { signature_hex = worker.sign_attestation attestation };
      };
    }

abbrev submitted_for :
    Worker → Service → InferenceRequestedPayload → Option Execution → Option MsgSubmitResult
submitted_for worker svc p none = none
submitted_for worker svc p (some result) = some (result_message worker svc p result)

module _ (codec : Codec) (model : Model) (worker : Worker) (p : InferenceRequestedPayload) where
  abbrev pub handle_pending : Service → Option InferenceRequest → Option MsgSubmitResult
  handle_pending svc none = none
  handle_pending svc (some req) =
      if str_eq (status_text req.status) "PENDING"
      then submitted_for worker svc p
          (execute codec model (prompt_of worker p.request_id p.input_text))
      else none

  abbrev pub handle_owned : Option InferenceRequest → Option Service → Option MsgSubmitResult
  handle_owned req none = none
  handle_owned req (some svc) =
      if str_eq svc.owner worker.address then handle_pending svc req else none

  -- `svc` and `req` are what the chain answers for the event's service and request.
  unfoldable pub handle_event : Option Service → Option InferenceRequest → Option MsgSubmitResult
  unfolding execute status_text
  handle_event svc req = handle_owned req svc
