-- ===== src/Api/Demo/Messages.antt =====
-- What the `/demo` routes read and answer.
use l1_modular_blockchain.Common.{ℕ, String, Option, none, some, List, if◌then◌else◌, str_eq, ◌==◌}
use l1_modular_blockchain.Types.{Error, Service, malformed_payload}
use l1_modular_blockchain.Outcome.{Outcome, ok, err}
use l1_modular_blockchain.Bolt.{Bolt}
use l1_modular_blockchain.State.{World}
use l1_modular_blockchain.Tx.Wire.{TxType}
use l1_modular_blockchain.Tx.Submit.{TxReceipt}
use l1_modular_blockchain.Api.Keyring.{KeyringEntry, load_key}
use l1_modular_blockchain.Http.{Response, status_ok}

pub record DemoRegisterDomainReq : Type 0 where
  pub model_sha256 : String
  pub runtime_id : String
  pub hardware_tag : String
  pub precision : String
  pub description : String
  pub key : String

pub record DemoRegisterReq : Type 0 where
  pub name : String
  pub description : String
  pub price : ℕ
  pub key : String

pub record DemoChallengeReq : Type 0 where
  pub request_id : ℕ
  pub output_hash : String
  pub key : String

pub record DemoRequestReq : Type 0 where
  pub service_id : ℕ
  pub prompt : String
  pub key : String

pub record DemoUpdateServiceReq : Type 0 where
  pub service_id : ℕ
  pub description : String
  pub price_amount : ℕ
  pub key : String

pub record DemoDeactivateServiceReq : Type 0 where
  pub service_id : ℕ
  pub key : String

pub record DemoDeactivateDomainReq : Type 0 where
  pub domain_id : ℕ
  pub key : String

pub record DemoResolveChallengeReq : Type 0 where
  pub request_id : ℕ
  pub decision : String
  pub key : String

pub data DemoBody : Type 0 where
  failed : Error → DemoBody
  registered_service : ℕ → DemoBody
  registered_domain : ℕ → DemoBody
  requested : ℕ → DemoBody
  challenged_as : TxType → DemoBody
  done : DemoBody
  decided : String → DemoBody
  already_seeded : List Service → DemoBody
  -- the service, the domain, and the two witnesses
  seeded : ℕ → ℕ → ℕ → ℕ → DemoBody

abbrev pub refused : ℕ → Error → Response DemoBody
refused status e = record { status = status; body = failed e }

-- The defaults of empty fields.
abbrev pub or_default : String → String → String
or_default default s = if str_eq s "" then default else s

abbrev pub or_number : ℕ → ℕ → ℕ
or_number default n = if n == 0 then default else n

abbrev address_or_empty : Outcome KeyringEntry → String
address_or_empty (ok key) = key.address
address_or_empty (err e) = ""

unfoldable pub resolve_addr : Option (List KeyringEntry) → String → String
unfolding load_key
resolve_addr keyring name = address_or_empty (load_key keyring name)

module _ ⦃bolt : Bolt⦄ where
  -- The answer to a transaction: its error leaves the state.
  unfoldable pub answer_tx :
      World → ℕ → (TxReceipt → DemoBody) → Outcome (World × TxReceipt) → World × Response DemoBody
  answer_tx w status body (err e) = (w, refused status e)
  answer_tx w status body (ok (w', receipt)) =
      (w', record { status = status_ok; body = body receipt })

  -- The answer to a body that may not be JSON.
  unfoldable pub with_body :
      {A : Type 0} → World → Option A → (A → World × Response DemoBody) → World × Response DemoBody
  with_body w none handler = (w, refused 400 malformed_payload)
  with_body w (some req) handler = handler req

  -- `if err != nil { writeError(w, http.StatusBadRequest, err); return }`
  unfoldable pub or_refused :
      {A : Type 0} → World → Outcome A → (A → World × Response DemoBody) → World × Response DemoBody
  or_refused w (err e) next = (w, refused 400 e)
  or_refused w (ok a) next = next a
