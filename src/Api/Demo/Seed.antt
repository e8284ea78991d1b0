-- ===== src/Api/Demo/Seed.antt =====
-- `demoSeed`: a domain, a service, and a witness for each of the two harnesses.
use l1_modular_blockchain.Common.{ℕ, String, Option, List, [], ◌∷◌}
use l1_modular_blockchain.Int64.{pos}
use l1_modular_blockchain.Types.{Service}
use l1_modular_blockchain.Outcome.{Outcome, ok, err}
use l1_modular_blockchain.Bolt.{Bolt}
use l1_modular_blockchain.State.{World}
use l1_modular_blockchain.State.Reads.{list_services}
use l1_modular_blockchain.Tx.Wire.{Codec}
use l1_modular_blockchain.Tx.Submit.{TxReceipt}
use l1_modular_blockchain.Http.{Response, status_ok, internal_server_error}
use l1_modular_blockchain.Api.Keyring.{Signing, KeyringEntry}
use l1_modular_blockchain.Api.Sign.{Encoder, sign_and_submit}
use l1_modular_blockchain.Api.Demo.Messages.{
  DemoBody, already_seeded, seeded, refused, or_default, resolve_addr,
}

module _ ⦃bolt : Bolt⦄ (codec : Codec) (signing : Signing codec) (encoder : Encoder)
    (keyring : Option (List KeyringEntry)) where
  -- A step of the seed: on an error the answer is 500, and the steps before it stay.
  abbrev pub or_stopped :
      World
      → Outcome (World × TxReceipt)
      → (World → TxReceipt → World × Response DemoBody)
      → World × Response DemoBody
  or_stopped w (err e) next = (w, refused internal_server_error e)
  or_stopped w (ok (w', receipt)) next = next w' receipt

  pub seed_service : World → String → String → String → ℕ → ℕ → Outcome (World × TxReceipt)
  seed_service w key name description price domain_id =
      sign_and_submit codec signing keyring w key "register_service" (
        encoder.register_service (record {
          owner = resolve_addr keyring key;
          name = name;
          description = description;
          price = record { denom = "aios"; amount = price };
          verification_domain_id = domain_id;
        }))

  -- The seed of a chain without services. `model_sha` is the variable MODEL_SHA256.
  abbrev pub seed_on : World → String → List Service → World × Response DemoBody
  seed_on w model_sha (svc ∷ svcs) =
      (w, record { status = status_ok; body = already_seeded (svc ∷ svcs) })
  seed_on w model_sha [] =
      or_stopped w
        (sign_and_submit codec signing keyring w "bob" "register_domain" (
          encoder.register_domain (record {
            authority = resolve_addr keyring "bob";
            model_sha256 = or_default "unverified-tinyllama-q4" model_sha;
            runtime_id = "llama.cpp-server";
            hardware_tag = "cpu-x86_64-tinyllama-q4";
            precision = "q4_k_m";
            tokenizer_id = "llama.cpp-bpe-v1";
            description = "TinyLlama-1.1B Q4_K_M on CPU via llama.cpp";
            voucher_margin = pos 0;
          })))
        λ w1 domain.
          or_stopped w1
            (seed_service w1 "bob" "translate-en-fr" "EN→FR translation (TinyLlama demo)" 100
              domain.new_id)
            λ w2 service.
              or_stopped w2
                (seed_service w2 "harness" "harness-witness"
                  "determinism-harness domain-residency marker (price set high to deter buyers)"
                  1000000000 domain.new_id)
                λ w3 witness.
                  or_stopped w3
                    (seed_service w3 "harness-b" "harness-witness-b"
                      "second determinism-harness domain-residency marker" 1000000000 domain.new_id)
                    λ w4 witness_b. (
                      w4,
                      record {
                        status = status_ok;
                        body = seeded service.new_id domain.new_id witness.new_id witness_b.new_id;
                      },
                    )

  unfoldable pub demo_seed : World → String → World × Response DemoBody
  unfolding list_services
  demo_seed w model_sha = seed_on w model_sha (list_services w)
