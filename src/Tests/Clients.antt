-- ===== src/Tests/Clients.antt =====
-- The HTTP surface and its clients, at a concrete state of the chain.
use mathlib.Core.List.{Memᴰ}
use Prim.Native.String.{len}
use l1_modular_blockchain.Common.{
  ℕ, ◌≡◌, ◌≢◌, ◌↔◌, refl, arith, String, true, false, Option, some, List, [], ◌∷◌, str_eq,
}
use l1_modular_blockchain.Int64.{pos}
use l1_modular_blockchain.Types.{
  Service, VerificationDomain, InferenceRequest, InferenceRequestedPayload, MsgSubmitResult, Result,
  MsgVouch, submitted,
}
use l1_modular_blockchain.Outcome.{ok, Ends, refuse_if, or_fail}
use l1_modular_blockchain.State.{World}
use l1_modular_blockchain.State.Reads.{list_requests, status_text, strip_prefix}
use l1_modular_blockchain.Tx.Wire.{
  transfer, vouch, challenge, tx_type, hex_digit, encode_hex, canonical_bytes, address_from_pub_key,
}
use l1_modular_blockchain.Tx.Attest.{check_attestation, check_domain, same_tuple, same_tokenizer}
use l1_modular_blockchain.Tx.Disputes.{side_of}
use l1_modular_blockchain.Tx.Hex.{Bytes}
use l1_modular_blockchain.Solvency.Sweeps.{Distinct}
use l1_modular_blockchain.Api.Keyring.{
  Signing, KeyringEntry, new_key, find_key, load_key, ensure_dev_keyring,
}
use l1_modular_blockchain.Api.Sign.{Encoder, sign_and_submit}
use l1_modular_blockchain.Api.Boot.{BootFailure, Booted, ensure_dev_keyring-Booted}
use l1_modular_blockchain.Api.Signed.{run_as, sign_and_submit-run_as}
use l1_modular_blockchain.Api.Lists.{status_filter, service_filter, Wanted, list_requests-Listed}
use l1_modular_blockchain.Api.Demo.{DemoChallengeReq, challenged_as, or_default, answer_tx}
use l1_modular_blockchain.Api.Demo.Routes.{demo_challenge}
use l1_modular_blockchain.Api.Demo.Challenged.{demo_message, demo_challenge-run_as}
use l1_modular_blockchain.Node.Executor.{Model, execute, execution_of, hash_of}
use l1_modular_blockchain.Node.Handler.{Worker, result_message, handle_event}
use l1_modular_blockchain.Harness.Check.{
  verified, file_vouch, file_challenge, is_disputed, action_on, check_request,
}
use l1_modular_blockchain.Harness.Filing.{Signer, replay_attestation, file_vouch_tx}
use l1_modular_blockchain.Harness.Honest.{
  check_request-verified, check_request-challenges, signer_of, file_vouch_tx-run_as,
}
use l1_modular_blockchain.Tests.Fixtures.{
  bolt, chain, chain-Inv, codec, waiting, answered, contested, answer, dispute, model, thirty_two,
}

-- Each name's key pair has its own bytes.
abbrev pair_of : String → Option (List ℕ × List ℕ)
pair_of name = some (len name ∷ thirty_two, len name ∷ [])

ensure_dev_keyring-Booted_example :
    Ends
      (BootFailure pair_of true)
      (Booted 1000 codec pair_of chain)
      (ensure_dev_keyring codec false pair_of true chain)
ensure_dev_keyring-Booted_example =
    ensure_dev_keyring-Booted codec pair_of true chain chain-Inv (omega arith)

list_requests-Listed_example :
    (Memᴰ answered (list_requests chain (status_filter (some submitted)) (service_filter (some 1)))
      ↔ ((bolt.get chain.requests 2 ≡ some answered)
          × Wanted (some submitted) answered.status
          × Wanted (some 1) answered.service_id))
    × Distinct (list_requests chain (status_filter (some submitted)) (service_filter (some 1)))
list_requests-Listed_example =
    list_requests-Listed chain (some submitted) (some 1) answered chain-Inv (λ e. cc)

abbrev key_bytes : List ℕ
key_bytes = thirty_two

abbrev signature : List ℕ
signature =
    0 ∷ 0 ∷ 0 ∷ 0 ∷ 0 ∷ 0 ∷ 0 ∷ 0 ∷ 0 ∷ 0 ∷ 0 ∷ 0 ∷ 0 ∷ 0 ∷ 0 ∷ 0 ∷ 0 ∷ 0 ∷ 0 ∷ 0 ∷ 0 ∷ 0 ∷ 0 ∷ 0
    ∷ 0 ∷ 0 ∷ 0 ∷ 0 ∷ 0 ∷ 0 ∷ 0 ∷ 0 ∷ 0 ∷ 0 ∷ 0 ∷ 0 ∷ 0 ∷ 0 ∷ 0 ∷ 0 ∷ 0 ∷ 0 ∷ 0 ∷ 0 ∷ 0 ∷ 0 ∷ 0 ∷ 0
    ∷ 0 ∷ 0 ∷ 0 ∷ 0 ∷ 0 ∷ 0 ∷ 0 ∷ 0 ∷ 0 ∷ 0 ∷ 0 ∷ 0 ∷ 0 ∷ 0 ∷ 0 ∷ 0 ∷ []

signature-Bytes : Bytes signature
signature-Bytes = ground arith

thirty_two-Bytes : Bytes thirty_two
thirty_two-Bytes = ground arith

-- A scheme with one signature, which the codec takes.
abbrev signing : Signing codec
signing = record {
  sign = λ priv message. some signature;
  IsPair = λ pub_key priv. (pub_key ≡ thirty_two) × (priv ≡ []);
  pub_key-length = λ pub_key priv h. rw h.0 refl;
  pub_key-Bytes = λ pub_key priv h. rw h.0 thirty_two-Bytes;
  priv-Bytes = λ pub_key priv h. rw h.1 tt;
  sign_lem = λ pub_key priv message h. (signature, refl, refl, signature-Bytes, refl);
}

abbrev keyring : Option (List KeyringEntry)
keyring = some (new_key codec "bob" thirty_two [] ∷ [])

keyring_lem : load_key keyring "bob" ≡ ok (new_key codec "bob" thirty_two [])
unfolding load_key find_key or_fail str_eq
keyring_lem = refl

transfer_type : tx_type "transfer" ≡ some transfer
unfolding tx_type str_eq
transfer_type = refl

payload_given : str_eq "{}" "" ≡ false
unfolding str_eq
payload_given = refl

sign_and_submit-run_as_example :
    sign_and_submit codec signing keyring chain "bob" "transfer" "{}"
    ≡ run_as codec chain (address_from_pub_key codec thirty_two) transfer "{}"
unfolding canonical_bytes
sign_and_submit-run_as_example =
    sign_and_submit-run_as codec signing keyring chain "bob" thirty_two [] "transfer" transfer "{}"
      [] (refl, refl) keyring_lem transfer_type payload_given refl

abbrev encoder : Encoder
encoder = record {
  register_service = λ m. "{}";
  request_inference = λ m. "{}";
  register_domain = λ m. "{}";
  challenge = λ m. "{}";
  vouch = λ m. "{}";
  update_service = λ m. "{}";
  deactivate_service = λ m. "{}";
  deactivate_domain = λ m. "{}";
  resolve_challenge = λ m. "{}";
}

-- A model that always answers the same.
abbrev greeter : Model
greeter = record { complete = λ prompt. some "bonjour"; bytes_of = λ text. [] }

abbrev worker : Worker
worker = record {
  config = record {
    model_sha256 = "";
    runtime_id = "";
    precision = "";
    hardware_tag = "";
    tokenizer_id = "";
  };
  address = "ann";
  sign_attestation = λ att. "";
  default_prompt = λ id. "respond";
  height = pos 4;
}

abbrev hello : InferenceRequestedPayload
hello = record {
  request_id = 1;
  service_id = 1;
  requester = "bob";
  input_hash = "in";
  input_uri = "inline:in";
  input_text = "hello";
  escrow = record { denom = "aios"; amount = 10 };
  deadline_height = pos 5;
}

abbrev reply : MsgSubmitResult
reply = result_message worker model hello (execution_of codec greeter "bonjour")

reply_lem : handle_event codec greeter worker hello (some model) (some waiting) ≡ some reply
unfolding handle_event execute status_text str_eq
reply_lem = refl

abbrev replied : InferenceRequest
replied = record waiting {
  status = submitted;
  input_uri = "inline:in";
  input_text = "hello";
  result = some reply.result;
}

hello_given : str_eq hello.input_text "" ≡ false
unfolding str_eq
hello_given = refl

check_request-verified_example :
    ((check_request codec greeter true replied.id (some replied)).verdict ≡ verified)
    × ((check_request codec greeter true replied.id (some replied)).action ≢ file_challenge)
unfolding strip_prefix
check_request-verified_example =
    check_request-verified codec greeter worker hello (some model) (some waiting) reply true replied
      reply_lem refl refl hello_given refl

-- The same request with another answer.
abbrev falsified : InferenceRequest
falsified = record replied { result = some answer }

falsified_lem :
    (check_request codec greeter true falsified.id (some falsified)).action ≡ file_challenge
unfolding check_request strip_prefix str_eq encode_hex hex_digit
falsified_lem = refl

check_request-challenges_example :
    (result : Result) × (output : String) × (falsified.result ≡ some result)
    × (greeter.complete falsified.input_text ≡ some output)
    × (str_eq (hash_of codec greeter output) result.output_hash ≡ false)
    × (is_disputed falsified.status ≡ false)
    × (true ≡ true)
check_request-challenges_example =
    check_request-challenges codec greeter true falsified falsified_lem

abbrev domain : VerificationDomain
domain = record {
  id = 1;
  model_sha256 = "m";
  runtime_id = "r";
  hardware_tag = "h";
  precision = "p";
  tokenizer_id = "t";
  description = "";
  registered_at = pos 0;
  active = true;
  voucher_margin = pos 0;
}

abbrev with_domain : World
with_domain = record chain { domains = ((1, domain) ∷ [], (omega arith, tt)) }

abbrev bound_model : Service
bound_model = record model { verification_domain_id = 1 }

abbrev watcher : Signer
watcher = record { name = "fay"; address = "fay"; pub_key_hex = ""; priv_key = [] }

watcher_vouches :
    action_on true contested.status contested.challenges answer.output_hash "right" ≡ file_vouch
unfolding action_on str_eq
watcher_vouches = refl

abbrev attested_answer : Result
attested_answer = record answer {
  attestation = replay_attestation watcher domain contested "right";
}

watcher_lem : check_attestation with_domain bound_model attested_answer.attestation ≡ ok tt
unfolding check_attestation check_domain same_tuple same_tokenizer or_fail refuse_if str_eq
watcher_lem = refl

file_vouch_tx-run_as_example :
    (msg : MsgVouch) × (file_vouch_tx codec signing encoder
        (signer_of codec "fay" thirty_two [])
        with_domain
        3
        "right"
        contested
        attested_answer
      ≡ run_as codec with_domain (address_from_pub_key codec thirty_two) vouch (encoder.vouch msg))
    × (msg.request_id ≡ 3)
    × (check_attestation with_domain bound_model msg.attestation ≡ ok tt)
    × (msg.attestation.output_hash ≡ "right")
    × (side_of msg.attestation.output_hash attested_answer.output_hash
          dispute.attestation.output_hash
        ≡ some (str_eq "right" attested_answer.output_hash))
unfolding canonical_bytes
file_vouch_tx-run_as_example =
    file_vouch_tx-run_as codec signing encoder with_domain bound_model domain contested
      attested_answer dispute "fay" thirty_two [] true "right" [] (λ e. omega (arith, e)) refl refl
      watcher_lem refl watcher_vouches (refl, refl) payload_given refl

abbrev bound_chain : World
bound_chain = record with_domain { services = ((1, bound_model) ∷ [], (omega arith, tt)) }

abbrev objection : DemoChallengeReq
objection = record { request_id = 2; output_hash = "other"; key = "bob" }

objection_key :
    load_key keyring (or_default "harness" "bob")
    ≡ ok (new_key codec (or_default "harness" "bob") thirty_two [])
unfolding load_key find_key or_fail str_eq
objection_key = refl

demo_challenge-run_as_example :
    (demo_challenge codec signing encoder (λ s. []) keyring bound_chain (some objection)
      ≡ answer_tx bound_chain 400
          (λ receipt. challenged_as receipt.type)
          (run_as codec bound_chain (address_from_pub_key codec thirty_two) challenge "{}"))
    × ((check_attestation bound_chain bound_model
            (demo_message bound_chain
              (address_from_pub_key codec thirty_two)
              answered
              domain
              bound_model
              objection).attestation
          ≡ ok tt)
        ↔ (str_eq domain.tokenizer_id "" ≡ true))
unfolding canonical_bytes
demo_challenge-run_as_example =
    demo_challenge-run_as codec signing encoder (λ s. []) keyring bound_chain objection answered
      bound_model domain thirty_two [] [] refl refl (λ e. omega (arith, e)) refl refl (refl, refl)
      objection_key payload_given refl
