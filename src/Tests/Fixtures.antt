-- ===== src/Tests/Fixtures.antt =====
-- A chain in memory for the tests: a service, four requests that are pending, submitted, in dispute
-- and over, and an escrow account that holds what is locked for them.
use l1_modular_blockchain.Common.{
  ℕ, String, Bool, true, false, Option, none, some, List, [], ◌∷◌, refl, arith, if◌then◌else◌,
  str_eq,
}
use l1_modular_blockchain.Int64.{pos}
use l1_modular_blockchain.Types.{
  Coin, Service, InferenceRequest, RequestStatus, pending, submitted, challenged, finalized, Result,
  Attestation, Challenge, Voucher, MsgVouch, MsgDeactivateService, MsgTransfer, SignedTx,
  default_params,
}
use l1_modular_blockchain.Bolt.{Bolt, memory}
use l1_modular_blockchain.State.{World, Account}
use l1_modular_blockchain.State.Bank.{account}
use l1_modular_blockchain.Tx.Wire.{Codec}
use l1_modular_blockchain.Solvency.Stake.{Inv}

instance abbrev pub bolt : Bolt
bolt = memory

abbrev pub coin : ℕ → Coin
coin n = record { denom = "aios"; amount = n }

abbrev attest : String → Attestation
attest hash = record {
  provider = "";
  verification_domain_id = 0;
  model_sha256 = "";
  runtime_id = "";
  hardware_tag = "";
  precision = "";
  tokenizer_id = "";
  input_hash = "in";
  output_hash = hash;
  produced_at = pos 0;
  signature_hex = "";
}

abbrev pub answer : Result
answer = record {
  output_hash = "right";
  output_uri = "";
  output_text = "";
  attestation = attest "right";
}

abbrev pub model : Service
model = record {
  id = 1;
  owner = "ann";
  name = "model";
  description = "";
  price = coin 10;
  verification_domain_id = 0;
  active = true;
  created_at_height = pos 0;
  registration_bond = coin 100;
}

abbrev request :
    ℕ
    → RequestStatus
    → Option Result
    → List Challenge
    → Option Coin
    → List Voucher
    → InferenceRequest
request id status result challenges bond vouchers = record {
  id = id;
  service_id = 1;
  requester = "bob";
  input_hash = "in";
  input_uri = "";
  input_text = "";
  escrow = coin 10;
  deadline_height = pos 5;
  status = status;
  created_at_height = pos 1;
  finalized_at_height = pos 0;
  result = result;
  paid = none;
  submitted_at_height = pos 2;
  challenges = challenges;
  provider_bond = bond;
  vouchers = vouchers;
}

abbrev pub dispute : Challenge
dispute = record {
  challenger = "cid";
  posted_at = pos 3;
  attestation = attest "wrong";
  bond = coin 50;
}

abbrev backing : String → Bool → Voucher
backing who side = record {
  voucher = who;
  posted_at = pos 4;
  attestation = attest (if side then "right" else "wrong");
  bond = coin 25;
  supports_provider = side;
}

abbrev pub waiting : InferenceRequest
waiting = request 1 pending none [] none []

abbrev pub answered : InferenceRequest
answered = request 2 submitted (some answer) [] (some (coin 50)) []

abbrev pub contested : InferenceRequest
contested =
    request 3 challenged (some answer) (dispute ∷ []) (some (coin 50))
      (backing "dan" true ∷ backing "eve" false ∷ [])

abbrev pub settled : InferenceRequest
settled = request 4 finalized (some answer) [] none []

abbrev holder : String → ℕ → String × Account
holder addr balance = (addr, record { address = addr; balance = balance; nonce = 0 })

-- Escrow: 10 and 60 and 160 for the requests, 100 for the service. The supply is 1000.
abbrev pub chain : World
chain = record {
  height = 100;
  next_svc_id = 2;
  next_req_id = 5;
  next_domain_id = 1;
  params = default_params;
  authority = "";
  accounts =
      holder "ann" 200
      ∷ holder "bob" 150
      ∷ holder "aios10102030405060708090a0b0c0d0e0f1011121314" 50
      ∷ holder "fay" 270
      ∷ holder "aios1escrow000000000000000000000000000000" 330
      ∷ [];
  services = ((1, model) ∷ [], (omega arith, tt));
  svc_by_name = ("model", 1) ∷ [];
  requests = (
    (1, waiting) ∷ (2, answered) ∷ (3, contested) ∷ (4, settled) ∷ [],
    (omega arith, (omega arith, (omega arith, (omega arith, tt)))),
  );
  nonces = [];
  domains = ([], tt);
}

pub chain-Inv : Inv 1000 chain
unfolding str_eq account
chain-Inv = record {
  funded = record { balanced = refl; bounded = omega arith; reserved = omega arith };
  sound = (
    (refl, record { served = refl; payable = refl; shaped = (refl, refl, refl) }),
    (
      (refl, record { served = refl; payable = refl; shaped = (refl, refl, refl) }),
      (
        (refl, record { served = refl; payable = refl; shaped = (refl, refl, (refl, (refl, tt))) }),
        ((refl, record { served = refl; payable = refl; shaped = tt }), tt),
      ),
    ),
  );
  owned = ((refl, refl), tt);
  fresh_requests = (omega arith, (omega arith, (omega arith, (omega arith, tt))));
  fresh_services = (omega arith, tt);
}

-- A codec that reads one message of each kind, and takes every signature.
abbrev pub thirty_two : List ℕ
thirty_two =
    1 ∷ 2 ∷ 3 ∷ 4 ∷ 5 ∷ 6 ∷ 7 ∷ 8 ∷ 9 ∷ 10 ∷ 11 ∷ 12 ∷ 13 ∷ 14 ∷ 15 ∷ 16 ∷ 17 ∷ 18 ∷ 19 ∷ 20 ∷ 21
    ∷ 22 ∷ 23 ∷ 24 ∷ 25 ∷ 26 ∷ 27 ∷ 28 ∷ 29 ∷ 30 ∷ 31 ∷ 32 ∷ []

abbrev pub ann_pays : MsgTransfer
ann_pays = record {
  from = "aios10102030405060708090a0b0c0d0e0f1011121314";
  to = "bob";
  amount = coin 5;
}

abbrev pub codec : Codec
codec = record {
  verify = λ key message sig. true;
  sha256 = λ bytes. thirty_two;
  sha256-length = λ bytes. refl;
  marshal = λ tx. some [];
  register_service = λ p. none;
  request_inference = λ p. none;
  submit_result = λ p. none;
  transfer = λ p. some ann_pays;
  register_domain = λ p. none;
  challenge = λ p. none;
  vouch = λ p. none;
  update_service = λ p. none;
  deactivate_service = λ p. none;
  deactivate_domain = λ p. none;
  resolve_challenge = λ p. none;
}

abbrev eight : String
eight = "00112233"

abbrev pub transfer_tx : SignedTx
transfer_tx = record {
  type = "transfer";
  nonce = 0;
  pub_key_hex = "0011223344556677001122334455667700112233445566770011223344556677";
  signature_hex =
      "00112233445566770011223344556677001122334455667700112233445566770011223344556677001122334455667700112233445566770011223344556677";
  payload = "{}";
}

abbrev pub fay_vouches : MsgVouch
fay_vouches = record { voucher = "fay"; request_id = 3; attestation = attest "right" }

abbrev pub ann_leaves : MsgDeactivateService
ann_leaves = record { owner = "ann"; service_id = 1 }
