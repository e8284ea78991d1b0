-- ===== src/Api/Demo/Challenged.antt =====
-- About `POST /demo/challenge` of chain/internal/api/demo.go.
use l1_modular_blockchain.Common.{
  ℕ, ◌≡◌, ◌≢◌, ◌↔◌, refl, String, true, false, Option, some, List, str_eq, str_eq_refl, str_eq→eq,
  if◌then◌else◌, arith, Bool-cases, inl, inr, ◌==◌,
}
use l1_modular_blockchain.Types.{
  Service, VerificationDomain, InferenceRequest, MsgChallenge, request_not_submitted,
}
use l1_modular_blockchain.Outcome.{ok, or_fail, refuse_if}
use l1_modular_blockchain.Bolt.{Bolt}
use l1_modular_blockchain.State.{World, get_service, get_request, get_domain}
use l1_modular_blockchain.State.Reads.{height_of}
use l1_modular_blockchain.Tx.Wire.{
  Codec, tx_type, challenge, encode_hex, canonical_bytes, address_from_pub_key,
}
use l1_modular_blockchain.Tx.Attest.{check_attestation, check_domain, same_tuple, same_tokenizer}
use l1_modular_blockchain.Tx.Submit.{next_nonce}
use l1_modular_blockchain.Api.Keyring.{Signing, KeyringEntry, new_key, load_key}
use l1_modular_blockchain.Api.Sign.{Encoder, unsigned_tx}
use l1_modular_blockchain.Api.Signed.{run_as, sign_and_submit-run_as}
use l1_modular_blockchain.Api.Demo.Messages.{
  DemoChallengeReq, challenged_as, refused, or_default, resolve_addr, answer_tx, with_body,
  or_refused,
}
use l1_modular_blockchain.Api.Demo.Routes.{demo_challenge, is_submitted}

challenge_type : tx_type "challenge" ≡ some challenge
unfolding tx_type str_eq
challenge_type = refl

str_eq-sym : (s : String) → str_eq s "" ≡ false → str_eq "" s ≡ false
str_eq-sym s h = elim (Bool-cases (str_eq "" s)) [
  | inl same ↦ absurd (cc (rw (← str_eq→eq "" s same) at h, str_eq_refl ""))
  | inr other ↦ other
]

module _ ⦃bolt : Bolt⦄ where
  open bolt use {get}

  -- The message of a challenge by an address, with the tuple of the service's domain.
  abbrev pub demo_message :
      World
      → String
      → InferenceRequest
      → VerificationDomain
      → Service
      → DemoChallengeReq
      → MsgChallenge
  demo_message w addr full dom svc req = record {
    challenger = addr;
    request_id = req.request_id;
    attestation = record {
      provider = addr;
      verification_domain_id = svc.verification_domain_id;
      model_sha256 = dom.model_sha256;
      runtime_id = dom.runtime_id;
      hardware_tag = dom.hardware_tag;
      precision = dom.precision;
      tokenizer_id = "";
      input_hash = full.input_hash;
      output_hash = req.output_hash;
      produced_at = height_of w;
      signature_hex = "";
    };
  }

  -- The chain takes the attestation exactly if the domain pins no tokenizer.
  demo_message-check :
      (w : World) (addr : String) (full : InferenceRequest) (dom : VerificationDomain)
      (svc : Service) (req : DemoChallengeReq)
      → svc.verification_domain_id ≢ 0
      → get w.domains svc.verification_domain_id ≡ some dom
      → dom.id ≡ svc.verification_domain_id
      → (check_attestation w svc (demo_message w addr full dom svc req).attestation ≡ ok tt)
        ↔ (str_eq dom.tokenizer_id "" ≡ true)
  unfolding check_attestation check_domain same_tuple same_tokenizer or_fail refuse_if get_domain
  demo_message-check w addr full dom svc req bound stored own =
      let some_domain : (svc.verification_domain_id == 0) ≡ false = ground arith in
      let same_id : (svc.verification_domain_id == dom.id) ≡ true = ground arith in
      let same_model = str_eq_refl dom.model_sha256 in
      let same_runtime = str_eq_refl dom.runtime_id in
      let same_hardware = str_eq_refl dom.hardware_tag in
      let same_precision = str_eq_refl dom.precision in
      elim (Bool-cases (str_eq dom.tokenizer_id "")) [
        | inl any ↦ (
          λ h. any,
          λ h.
              rw
                (
                  some_domain, stored, same_id, same_model, same_runtime, same_hardware,
                  same_precision, any,
                )
                refl,
        )
        | inr pinned ↦
            let missing : str_eq "" dom.tokenizer_id ≡ false = str_eq-sym dom.tokenizer_id pinned in
            (
              λ h. cc (
                  rw
                    (
                      some_domain, stored, same_id, same_model, same_runtime, same_hardware,
                      same_precision, pinned, missing,
                    )
                    at h),
              λ h. cc (h, pinned),
            )
      ]

  -- Let a name have a key in the keyring, let its message and envelope encode, and let a stored
  -- request be for a stored service with a domain that is stored under its own id. A POST to
  -- /demo/challenge about the request is refused with the status 400 and leaves the state, if the
  -- request is not SUBMITTED. Else it is answered as the run of the challenge handler for the
  -- key's address with a message that has the domain's tuple, except for the tokenizer, which is
  -- empty. The chain's check takes this attestation for the service exactly if the domain pins no
  -- tokenizer.
  pub demo_challenge-run_as :
      (codec : Codec) (signing : Signing codec) (encoder : Encoder) (bytes_of : String → List ℕ)
      (keyring : Option (List KeyringEntry)) (w : World) (req : DemoChallengeReq)
      (full : InferenceRequest) (svc : Service) (dom : VerificationDomain) (pub_key priv : List ℕ)
      (message : List ℕ)
      → get w.requests req.request_id ≡ some full
      → get w.services full.service_id ≡ some svc
      → svc.verification_domain_id ≢ 0
      → get w.domains svc.verification_domain_id ≡ some dom
      → dom.id ≡ svc.verification_domain_id
      → signing.IsPair pub_key priv
      → load_key keyring (or_default "harness" req.key)
        ≡ ok (new_key codec (or_default "harness" req.key) pub_key priv)
      → str_eq
          (encoder.challenge (demo_message w (address_from_pub_key codec pub_key) full dom svc req))
          ""
        ≡ false
      → canonical_bytes codec (
          unsigned_tx "challenge"
            (next_nonce w (address_from_pub_key codec pub_key))
            (encode_hex pub_key)
            (encoder.challenge
              (demo_message w (address_from_pub_key codec pub_key) full dom svc req)))
        ≡ some message
      → (demo_challenge codec signing encoder bytes_of keyring w (some req) ≡ (
          if is_submitted full.status
          then answer_tx w 400
              (λ receipt. challenged_as receipt.type)
              (run_as codec w (address_from_pub_key codec pub_key) challenge (
                encoder.challenge
                  (demo_message w (address_from_pub_key codec pub_key) full dom svc req)))
          else (w, refused 400 request_not_submitted)))
        × ((check_attestation w svc
                (demo_message w (address_from_pub_key codec pub_key) full dom svc req).attestation
              ≡ ok tt)
            ↔ (str_eq dom.tokenizer_id "" ≡ true))
  unfolding demo_challenge with_body or_refused get_request get_service get_domain or_fail refuse_if
      resolve_addr
  demo_challenge-run_as codec signing encoder bytes_of keyring w req full svc dom pub_key priv
        message here served bound stored own pair loaded given canonical =
      let addr = address_from_pub_key codec pub_key in
      let name = or_default "harness" req.key in
      let payload = encoder.challenge (demo_message w addr full dom svc req) in
      let signed =
        sign_and_submit-run_as codec signing keyring w name pub_key priv "challenge" challenge
          payload message pair loaded challenge_type given canonical in
      (
        elim (Bool-cases (is_submitted full.status)) [
          | inl ready ↦ rw (here, ready, served, stored, loaded, signed) refl
          | inr early ↦ rw (here, early) refl
        ],
        demo_message-check w addr full dom svc req bound stored own,
      )
