-- ===== src/Api/Serve.antt =====
-- chain/internal/api/api.go: the routes, each as a function of the state to the next state and the
-- answer. `GET /events` is a stream and stands in Stream.
use l1_modular_blockchain.Common.{ℕ, String, Bool, Option, none, some, List, if◌then◌else◌, ◌==◌}
use l1_modular_blockchain.Int64.{ℤ}
use l1_modular_blockchain.Types.{
  Error, Params, Service, InferenceRequest, VerificationDomain, SignedTx, malformed_payload,
  invalid_address,
}
use l1_modular_blockchain.Outcome.{Outcome, ok, err}
use l1_modular_blockchain.Bolt.{Bolt}
use l1_modular_blockchain.State.{World, get_service, get_request, get_domain}
use l1_modular_blockchain.State.Bank.{balance}
use l1_modular_blockchain.State.Reads.{
  is_valid_address, height_of, list_services, list_requests, list_domains,
}
use l1_modular_blockchain.Tx.Wire.{
  Codec, TxType, register_service, request_inference, submit_result,
}
use l1_modular_blockchain.Tx.Submit.{TxReceipt, next_nonce, submit_tx}
use l1_modular_blockchain.Http.{
  Response, status_ok, bad_request, not_found, ParsedUint, parsed, parse_uint, parsed_or_default,
}

-- What is answered to `POST /tx`: an id of a service or a request, and whether a result is final.
pub record TxResponse : Type 0 where
  pub type : TxType
  pub height : ℤ
  pub service_id : Option ℕ
  pub request_id : Option ℕ
  pub finalized : Option Bool

pub data Body : Type 0 where
  healthy : Body
  at_height : ℤ → Body
  with_params : Params → Body
  accepted_tx : TxResponse → Body
  services : List Service → Body
  one_service : Service → Body
  requests : List InferenceRequest → Body
  one_request : InferenceRequest → Body
  -- the address, the balance and the next nonce
  one_account : String → ℕ → ℕ → Body
  domains : List VerificationDomain → Body
  one_domain : VerificationDomain → Body
  one_authority : String → Body
  malformed_number : Body
  failed : Error → Body

-- The routes with what they read of a request: a path's value, two query values, or a body that may
-- not be JSON.
pub data Call : Type 0 where
  health status params list_all_services list_all_domains get_authority : Call
  post_tx : Option SignedTx → Call
  get_one_service : String → Call
  list_some_requests : String → String → Call
  get_one_request : String → Call
  get_account : String → Call
  get_one_domain : String → Call

abbrev pub answered : Body → Response Body
answered body = record { status = status_ok; body = body }

-- `if receipt.NewID != 0` and the switch on the type.
abbrev shown_id : ℕ → Option ℕ
shown_id id = if id == 0 then none else some id

abbrev pub service_id_of : TxType → ℕ → Option ℕ
service_id_of register_service id = shown_id id
service_id_of _ id = none

abbrev pub request_id_of : TxType → ℕ → Option ℕ
request_id_of request_inference id = shown_id id
request_id_of _ id = none

abbrev pub finalized_of : TxType → Bool → Option Bool
finalized_of submit_result done = some done
finalized_of _ done = none

-- A row by the number in the path: the one error of these reads is that there is none.
abbrev pub found_or_404 : {A : Type 0} → (A → Body) → Outcome A → Response Body
found_or_404 body (ok a) = answered (body a)
found_or_404 body (err e) = record { status = not_found; body = failed e }

abbrev pub by_number : (ℕ → Response Body) → ParsedUint → Response Body
by_number lookup (parsed n) = lookup n
by_number lookup _ = record { status = bad_request; body = malformed_number }

module _ ⦃bolt : Bolt⦄ where
  abbrev pub answer_receipt : World → Outcome (World × TxReceipt) → World × Response Body
  answer_receipt w (err e) = (w, record { status = bad_request; body = failed e })
  answer_receipt w (ok (w', receipt)) = (
    w',
    answered (
        accepted_tx (record {
          type = receipt.type;
          height = height_of w';
          service_id = service_id_of receipt.type receipt.new_id;
          request_id = request_id_of receipt.type receipt.new_id;
          finalized = finalized_of receipt.type receipt.finalized;
        })),
  )

  unfoldable pub submit : Codec → World → Option SignedTx → World × Response Body
  submit codec w none = (w, record { status = bad_request; body = failed malformed_payload })
  submit codec w (some tx) = answer_receipt w (submit_tx codec w tx)

  unfoldable pub read_account : World → String → Response Body
  read_account w addr =
      if is_valid_address addr
      then answered (one_account addr (balance w.accounts addr) (next_nonce w addr))
      else record { status = bad_request; body = failed invalid_address }

  unfoldable pub serve : Codec → World → Call → World × Response Body
  unfolding submit read_account list_services list_domains list_requests
  serve codec w health = (w, answered healthy)
  serve codec w status = (w, answered (at_height (height_of w)))
  serve codec w params = (w, answered (with_params w.params))
  serve codec w (post_tx body) = submit codec w body
  serve codec w list_all_services = (w, answered (services (list_services w)))
  serve codec w (get_one_service id) =
      (w, by_number (λ n. found_or_404 one_service (get_service w n)) (parse_uint id))
  serve codec w (list_some_requests filter service_id) =
      (w, answered (requests (list_requests w filter (parsed_or_default (parse_uint service_id)))))
  serve codec w (get_one_request id) =
      (w, by_number (λ n. found_or_404 one_request (get_request w n)) (parse_uint id))
  serve codec w (get_account addr) = (w, read_account w addr)
  serve codec w list_all_domains = (w, answered (domains (list_domains w)))
  serve codec w (get_one_domain id) =
      (w, by_number (λ n. found_or_404 one_domain (get_domain w n)) (parse_uint id))
  serve codec w get_authority = (w, answered (one_authority w.authority))
