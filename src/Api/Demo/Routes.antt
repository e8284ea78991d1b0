-- ===== src/Api/Demo/Routes.antt =====
-- The routes that sign one transaction.
use Prim.Native.String.{◌++◌ as text_append}
use l1_modular_blockchain.Common.{ℕ, String, Bool, true, false, not, ◌&&◌, Option, List, str_eq}
use l1_modular_blockchain.Int64.{pos}
use l1_modular_blockchain.Types.{
  VerificationDomain, RequestStatus, submitted, request_not_submitted, invalid_decision,
}
use l1_modular_blockchain.Outcome.{Outcome, ok, err, refuse_if}
use l1_modular_blockchain.Bolt.{Bolt}
use l1_modular_blockchain.State.{World, get_service, get_request, get_domain}
use l1_modular_blockchain.State.Reads.{height_of}
use l1_modular_blockchain.Tx.Wire.{Codec, encode_hex}
use l1_modular_blockchain.Http.{Response, bad_request}
use l1_modular_blockchain.Api.Keyring.{Signing, KeyringEntry}
use l1_modular_blockchain.Api.Sign.{Encoder, sign_and_submit}
use l1_modular_blockchain.Api.Demo.Messages.{
  DemoRegisterDomainReq, DemoRegisterReq, DemoChallengeReq, DemoRequestReq, DemoUpdateServiceReq,
  DemoDeactivateServiceReq, DemoDeactivateDomainReq, DemoResolveChallengeReq, DemoBody,
  registered_service, registered_domain, requested, challenged_as, done, decided, or_default,
  or_number, resolve_addr, answer_tx, with_body, or_refused,
}

-- `types.VerificationDomain{}`, which `demoChallenge` goes on with when there is none.
abbrev no_domain : VerificationDomain
no_domain = record {
  id = 0;
  model_sha256 = "";
  runtime_id = "";
  hardware_tag = "";
  precision = "";
  tokenizer_id = "";
  description = "";
  registered_at = pos 0;
  active = false;
  voucher_margin = pos 0;
}

abbrev domain_or_none : Outcome VerificationDomain → VerificationDomain
domain_or_none (ok d) = d
domain_or_none (err e) = no_domain

abbrev pub is_submitted : RequestStatus → Bool
is_submitted submitted = true
is_submitted _ = false

-- `sha256` of a text's bytes, which is Go's own.
module _ ⦃bolt : Bolt⦄ (codec : Codec) (signing : Signing codec) (encoder : Encoder)
    (bytes_of : String → List ℕ) (keyring : Option (List KeyringEntry)) where
  pub demo_register_domain : World → Option DemoRegisterDomainReq → World × Response DemoBody
  demo_register_domain w body = with_body w body λ req.
      let key = or_default "bob" req.key in
      answer_tx w bad_request (λ receipt. registered_domain receipt.new_id)
        (sign_and_submit codec signing keyring w key "register_domain" (
          encoder.register_domain (record {
            authority = resolve_addr keyring key;
            model_sha256 = req.model_sha256;
            runtime_id = req.runtime_id;
            hardware_tag = req.hardware_tag;
            precision = req.precision;
            tokenizer_id = "";
            description = req.description;
            voucher_margin = pos 0;
          })))

  pub demo_register_service : World → Option DemoRegisterReq → World × Response DemoBody
  demo_register_service w body = with_body w body λ req.
      let key = or_default "bob" req.key in
      answer_tx w bad_request (λ receipt. registered_service receipt.new_id)
        (sign_and_submit codec signing keyring w key "register_service" (
          encoder.register_service (record {
            owner = resolve_addr keyring key;
            name = req.name;
            description = req.description;
            price = record { denom = "aios"; amount = or_number 100 req.price };
            verification_domain_id = 0;
          })))

  -- The attestation has no tokenizer and no signature.
  unfoldable pub demo_challenge : World → Option DemoChallengeReq → World × Response DemoBody
  demo_challenge w body = with_body w body λ req.
      let key = or_default "harness" req.key in
      or_refused w (get_request w req.request_id) λ full.
        or_refused w (refuse_if (not (is_submitted full.status)) request_not_submitted) λ _.
          or_refused w (get_service w full.service_id) λ svc.
            let dom = domain_or_none (get_domain w svc.verification_domain_id) in
            answer_tx w bad_request (λ receipt. challenged_as receipt.type)
              (sign_and_submit codec signing keyring w key "challenge" (
                encoder.challenge (record {
                  challenger = resolve_addr keyring key;
                  request_id = req.request_id;
                  attestation = record {
                    provider = resolve_addr keyring key;
                    verification_domain_id = svc.verification_domain_id;
                    model_sha256 = dom.model_sha256;
                    runtime_id = dom.runtime_id;
                    hardware_tag = dom.hardware_tag;
                    precision = dom.precision;
                    tokenizer_id = "";
                    input_hash = full.input_hash;
                    output_hash = req.output_hash;
                    produced_at = height_of w;
                    signature_hex = "";
                  };
                })))

  pub demo_request_inference : World → Option DemoRequestReq → World × Response DemoBody
  demo_request_inference w body = with_body w body λ req.
      let key = or_default "alice" req.key in
      let prompt = or_default "Translate 'hello world' to French." req.prompt in
      let service_id = or_number 1 req.service_id in
      or_refused w (get_service w service_id) λ svc.
        let input_hash = encode_hex (codec.sha256 (bytes_of prompt)) in
        answer_tx w bad_request (λ receipt. requested receipt.new_id)
          (sign_and_submit codec signing keyring w key "request_inference" (
            encoder.request_inference (record {
              requester = resolve_addr keyring key;
              service_id = service_id;
              input_hash = input_hash;
              input_uri = text_append "inline:" input_hash;
              input_text = prompt;
              max_price = svc.price;
              deadline_height = pos 0;
            })))

  pub demo_update_service : World → Option DemoUpdateServiceReq → World × Response DemoBody
  demo_update_service w body = with_body w body λ req.
      let key = or_default "bob" req.key in
      answer_tx w bad_request (λ receipt. done)
        (sign_and_submit codec signing keyring w key "update_service" (
          encoder.update_service (record {
            owner = resolve_addr keyring key;
            service_id = req.service_id;
            description = req.description;
            price = record { denom = "aios"; amount = or_number 100 req.price_amount };
          })))

  pub demo_deactivate_service : World → Option DemoDeactivateServiceReq → World × Response DemoBody
  demo_deactivate_service w body = with_body w body λ req.
      let key = or_default "bob" req.key in
      answer_tx w bad_request (λ receipt. done)
        (sign_and_submit codec signing keyring w key "deactivate_service" (
          encoder.deactivate_service
            (record { owner = resolve_addr keyring key; service_id = req.service_id })))

  pub demo_deactivate_domain : World → Option DemoDeactivateDomainReq → World × Response DemoBody
  demo_deactivate_domain w body = with_body w body λ req.
      let key = or_default "bob" req.key in
      answer_tx w bad_request (λ receipt. done)
        (sign_and_submit codec signing keyring w key "deactivate_domain" (
          encoder.deactivate_domain
            (record { authority = resolve_addr keyring key; domain_id = req.domain_id })))

  pub demo_resolve_challenge : World → Option DemoResolveChallengeReq → World × Response DemoBody
  demo_resolve_challenge w body = with_body w body λ req.
      let key = or_default "bob" req.key in
      or_refused w
        (refuse_if (not (str_eq req.decision "dismiss") && not (str_eq req.decision "slash"))
          invalid_decision)
        λ _.
          answer_tx w bad_request (λ receipt. decided req.decision)
            (sign_and_submit codec signing keyring w key "resolve_challenge" (
              encoder.resolve_challenge (record {
                authority = resolve_addr keyring key;
                request_id = req.request_id;
                decision = req.decision;
              })))

-- The routes, with what is read of a body.
pub data DemoCall : Type 0 where
  register_domain : Option DemoRegisterDomainReq → DemoCall
  register_service : Option DemoRegisterReq → DemoCall
  challenge : Option DemoChallengeReq → DemoCall
  request_inference : Option DemoRequestReq → DemoCall
  update_service : Option DemoUpdateServiceReq → DemoCall
  deactivate_service : Option DemoDeactivateServiceReq → DemoCall
  deactivate_domain : Option DemoDeactivateDomainReq → DemoCall
  resolve_challenge : Option DemoResolveChallengeReq → DemoCall

module _ ⦃bolt : Bolt⦄ (codec : Codec) (signing : Signing codec) (encoder : Encoder)
    (bytes_of : String → List ℕ) (keyring : Option (List KeyringEntry)) where
  unfoldable pub serve_demo : World → DemoCall → World × Response DemoBody
  unfolding demo_register_domain demo_register_service demo_challenge demo_request_inference
      demo_update_service demo_deactivate_service demo_deactivate_domain demo_resolve_challenge
  serve_demo w (register_domain body) =
      demo_register_domain codec signing encoder bytes_of keyring w body
  serve_demo w (register_service body) =
      demo_register_service codec signing encoder bytes_of keyring w body
  serve_demo w (challenge body) = demo_challenge codec signing encoder bytes_of keyring w body
  serve_demo w (request_inference body) =
      demo_request_inference codec signing encoder bytes_of keyring w body
  serve_demo w (update_service body) =
      demo_update_service codec signing encoder bytes_of keyring w body
  serve_demo w (deactivate_service body) =
      demo_deactivate_service codec signing encoder bytes_of keyring w body
  serve_demo w (deactivate_domain body) =
      demo_deactivate_domain codec signing encoder bytes_of keyring w body
  serve_demo w (resolve_challenge body) =
      demo_resolve_challenge codec signing encoder bytes_of keyring w body
