-- ===== src/Harness/Honest.antt =====
-- About a provider's worker and a watcher that run the same model.
use l1_modular_blockchain.Common.{
  ◌≡◌, ◌≢◌, refl, sym, ap, ◌∙◌, String, Bool, true, false, Option, none, some, [], ◌∷◌, str_eq,
  str_eq→eq, str_eq_refl, is_some, arith, Bool-cases, Option-cases, inl, inr, ◌==◌, ℕ, List,
}
use l1_modular_blockchain.Types.{
  Service, VerificationDomain, InferenceRequest, InferenceRequestedPayload, MsgSubmitResult, Result,
  Challenge, RequestStatus, Attestation, MsgVouch,
}
use l1_modular_blockchain.Outcome.{ok, or_fail, refuse_if}
use l1_modular_blockchain.Bolt.{Bolt}
use l1_modular_blockchain.State.{World, get_domain}
use l1_modular_blockchain.State.Reads.{strip_prefix}
use l1_modular_blockchain.Tx.Wire.{
  Codec, tx_type, vouch, encode_hex, canonical_bytes, address_from_pub_key,
}
use l1_modular_blockchain.Tx.Submit.{next_nonce}
use l1_modular_blockchain.Api.Keyring.{Signing}
use l1_modular_blockchain.Api.Sign.{Encoder, unsigned_tx}
use l1_modular_blockchain.Api.Signed.{run_as, sign_with-run_as}
use l1_modular_blockchain.Tx.Attest.{check_attestation, check_domain, same_tuple, same_tokenizer}
use l1_modular_blockchain.Tx.Disputes.{side_of}
use l1_modular_blockchain.Node.Executor.{Model, Execution, hash_of, execution_of, execute}
use l1_modular_blockchain.Node.Handler.{Worker, prompt_of, result_message, handle_event}
use l1_modular_blockchain.Harness.Check.{
  verified, file_vouch, file_challenge, is_disputed, action_on, check_request,
}
use l1_modular_blockchain.Harness.Filing.{Signer, replay_attestation, vouch_message, file_vouch_tx}

prompt_given :
    (worker : Worker) (p : InferenceRequestedPayload)
    → str_eq p.input_text "" ≡ false
    → prompt_of worker p.request_id p.input_text ≡ p.input_text
prompt_given worker p nonempty = rw nonempty refl

module _ (codec : Codec) (model : Model) where
  execute-output :
      (prompt : String) (result : Execution)
      → execute codec model prompt ≡ some result
      → (output : String) × (model.complete prompt ≡ some output)
        × (result ≡ execution_of codec model output)
  unfolding execute
  execute-output prompt result h = elim (Option-cases (model.complete prompt)) [
    | inl failed ↦ absurd (ground (arith, failed))
    | inr (output, done) ↦ (output, done, ground (arith, done))
  ]

  -- What a worker submits is what its model answers to the prompt.
  handle_event-output :
      (worker : Worker) (p : InferenceRequestedPayload) (svc : Option Service)
      (req : Option InferenceRequest) (msg : MsgSubmitResult)
      → handle_event codec model worker p svc req ≡ some msg
      → (output : String) × (model.complete (prompt_of worker p.request_id p.input_text)
          ≡ some output)
        × (msg.result.output_hash ≡ hash_of codec model output)
  unfolding handle_event
  handle_event-output worker p none req msg h = cc
  handle_event-output worker p (some svc) none msg h = absurd (ground arith)
  handle_event-output worker p (some svc) (some req) msg h =
      let prompt = prompt_of worker p.request_id p.input_text in
      elim (Option-cases (execute codec model prompt)) [
        | inl failed ↦ absurd (ground (arith, failed))
        | inr (result, done) ↦
            let (output, answered, shape) = execute-output prompt result done in
            let sent : msg ≡ result_message worker svc p result = ground (arith, done) in
            (output, answered, ap (λ m. m.result.output_hash) sent ∙ ap (λ x. x.output_hash) shape)
      ]

  -- Let a worker submit a message for a request with a prompt, and let the request be stored with
  -- the message's result, the prompt, and an inline URI. A watcher with the same model then has
  -- the verdict OK on the request and does not challenge it, whatever the request's status and
  -- challenges are.
  pub check_request-verified :
      (worker : Worker) (p : InferenceRequestedPayload) (svc : Option Service)
      (req : Option InferenceRequest) (msg : MsgSubmitResult) (has_signer : Bool)
      (full : InferenceRequest)
      → handle_event codec model worker p svc req ≡ some msg
      → full.result ≡ some msg.result
      → full.input_text ≡ p.input_text
      → str_eq p.input_text "" ≡ false
      → is_some (strip_prefix "inline:" full.input_uri) ≡ true
      → ((check_request codec model has_signer full.id (some full)).verdict ≡ verified)
        × ((check_request codec model has_signer full.id (some full)).action ≢ file_challenge)
  unfolding check_request
  check_request-verified worker p svc req msg has_signer full submitted stored same nonempty
        inline =
      let (output, done, hash) = handle_event-output worker p svc req msg submitted in
      let text : model.complete full.input_text ≡ some output =
        ap model.complete (same ∙ sym (prompt_given worker p nonempty)) ∙ done in
      let given : str_eq full.input_text "" ≡ false = rw same nonempty in
      let agree : str_eq (hash_of codec model output) msg.result.output_hash ≡ true =
        rw hash (str_eq_refl (hash_of codec model output)) in
      rw (stored, inline, given, text, agree) (refl, λ e. ground arith)

  -- A watcher that files a challenge about a request has a key, found a result there, replayed the
  -- prompt with an output whose hash differs from the result's, and the request is not in dispute.
  pub check_request-challenges :
      (has_signer : Bool) (full : InferenceRequest)
      → (check_request codec model has_signer full.id (some full)).action ≡ file_challenge
      → (result : Result) × (output : String) × (full.result ≡ some result)
        × (model.complete full.input_text ≡ some output)
        × (str_eq (hash_of codec model output) result.output_hash ≡ false)
        × (is_disputed full.status ≡ false)
        × (has_signer ≡ true)
  unfolding check_request
  check_request-challenges has_signer full h = elim (Option-cases full.result) [
    | inl missing ↦ absurd (ground (arith, missing))
    | inr (result, found) ↦ elim (Option-cases (model.complete full.input_text)) [
      | inl failed ↦ absurd (ground (arith, found, failed))
      | inr (output, done) ↦ (
        result,
        output,
        found,
        done,
        ground (arith, found, done),
        ground (arith, found, done),
        ground (arith, found, done),
      )
    ]
  ]

vouch_type : tx_type "vouch" ≡ some vouch
unfolding tx_type str_eq
vouch_type = refl

-- A vouch that the watcher files is one that the chain's checks take.
module _ ⦃bolt : Bolt⦄ where
  open bolt use {get}

  replay_attestation-check :
      (w : World) (signer : Signer) (svc : Service) (dom : VerificationDomain)
      (full : InferenceRequest) (hash : String)
      → get w.domains svc.verification_domain_id ≡ some dom
      → check_attestation w svc (replay_attestation signer dom full hash) ≡ ok tt
  unfolding check_attestation same_tuple same_tokenizer or_fail refuse_if
  replay_attestation-check w signer svc dom full hash stored =
      elim (Bool-cases (svc.verification_domain_id == 0)) [
        | inl none_of_them ↦ rw none_of_them refl
        | inr some_domain ↦
            let same_id : (dom.id == dom.id) ≡ true = ground arith in
            rw
              (
                some_domain,
                stored,
                same_id,
                str_eq_refl dom.model_sha256,
                str_eq_refl dom.runtime_id,
                str_eq_refl dom.hardware_tag,
                str_eq_refl dom.precision,
                str_eq_refl dom.tokenizer_id,
              )
              (ground arith)
      ]

  action_on-side :
      (has_signer : Bool) (status : RequestStatus) (c : Challenge) (chain_hash replay_hash : String)
      → action_on has_signer status (c ∷ []) chain_hash replay_hash ≡ file_vouch
      → side_of replay_hash chain_hash c.attestation.output_hash
        ≡ some (str_eq replay_hash chain_hash)
  unfolding action_on side_of
  action_on-side has_signer status c chain_hash replay_hash h =
      let other = c.attestation.output_hash in
      elim (Bool-cases (str_eq replay_hash chain_hash)) [
        | inl agree ↦ rw agree refl
        | inr differ ↦
            let same : str_eq other replay_hash ≡ true = ground (arith, differ) in
            let back : str_eq replay_hash other ≡ true =
              rw (str_eq→eq other replay_hash same) (str_eq_refl replay_hash) in
            rw (differ, back) refl
      ]

  -- The result's own attestation names the service's domain.
  attested_domain :
      (w : World) (svc : Service) (dom : VerificationDomain) (att : Attestation)
      → svc.verification_domain_id ≢ 0
      → get w.domains svc.verification_domain_id ≡ some dom
      → check_attestation w svc att ≡ ok tt
      → att.verification_domain_id ≡ dom.id
  unfolding check_attestation check_domain same_tuple or_fail refuse_if
  attested_domain w svc dom att bound stored passed =
      let some_domain : (svc.verification_domain_id == 0) ≡ false = ground arith in
      elim (Bool-cases (att.verification_domain_id == dom.id)) [
        | inl same ↦ ground arith
        | inr other ↦ cc (rw (some_domain, stored, other) at passed)
      ]

  -- The watcher with a key pair.
  abbrev pub signer_of : Codec → String → List ℕ → List ℕ → Signer
  signer_of codec name pub_key priv = record {
    name = name;
    address = address_from_pub_key codec pub_key;
    pub_key_hex = encode_hex pub_key;
    priv_key = priv;
  }

  -- Let the chain have taken the attestation of a request's result for a service with a domain
  -- that is stored under its own id, and let a watcher with a key pair decide to vouch on the
  -- request, which has one challenge. If the message and the envelope encode, fileVouch is the run
  -- of the vouch handler for the watcher's address, with a message whose attestation the chain's
  -- check takes for the service, and whose output hash is on a side, the provider's exactly if it
  -- is the result's hash.
  pub file_vouch_tx-run_as :
      (codec : Codec) (signing : Signing codec) (encoder : Encoder) (w : World) (svc : Service)
      (dom : VerificationDomain) (full : InferenceRequest) (result : Result) (c : Challenge)
      (name : String) (pub_key priv : List ℕ) (has_signer : Bool) (hash : String) (message : List ℕ)
      → svc.verification_domain_id ≢ 0
      → get w.domains svc.verification_domain_id ≡ some dom
      → dom.id ≡ svc.verification_domain_id
      → check_attestation w svc result.attestation ≡ ok tt
      → full.challenges ≡ c ∷ []
      → action_on has_signer full.status full.challenges result.output_hash hash ≡ file_vouch
      → signing.IsPair pub_key priv
      → str_eq
          (encoder.vouch (vouch_message (signer_of codec name pub_key priv) dom full full.id hash))
          ""
        ≡ false
      → canonical_bytes codec (
          unsigned_tx "vouch"
            (next_nonce w (address_from_pub_key codec pub_key))
            (encode_hex pub_key)
            (encoder.vouch
              (vouch_message (signer_of codec name pub_key priv) dom full full.id hash)))
        ≡ some message
      → (msg : MsgVouch) × (file_vouch_tx codec signing encoder
            (signer_of codec name pub_key priv)
            w
            full.id
            hash
            full
            result
          ≡ run_as codec w (address_from_pub_key codec pub_key) vouch (encoder.vouch msg))
        × (msg.request_id ≡ full.id)
        × (check_attestation w svc msg.attestation ≡ ok tt)
        × (msg.attestation.output_hash ≡ hash)
        × (side_of msg.attestation.output_hash result.output_hash c.attestation.output_hash
            ≡ some (str_eq hash result.output_hash))
  unfolding file_vouch_tx get_domain or_fail
  file_vouch_tx-run_as codec signing encoder w svc dom full result c name pub_key priv has_signer
        hash message bound stored own passed one vouches pair given canonical =
      let signer = signer_of codec name pub_key priv in
      let named : result.attestation.verification_domain_id ≡ svc.verification_domain_id =
        attested_domain w svc dom result.attestation bound stored passed ∙ own in
      let fetched : get w.domains result.attestation.verification_domain_id ≡ some dom =
        ap (get w.domains) named ∙ stored in
      (
        vouch_message signer dom full full.id hash,
        rw fetched (
            sign_with-run_as codec signing w pub_key priv "vouch" vouch _ message pair vouch_type
              given canonical),
        refl,
        replay_attestation-check w signer svc dom full hash stored,
        refl,
        action_on-side has_signer full.status c result.output_hash hash (rw one at vouches),
      )
