-- ===== src/Indexer/Sub.antt =====
-- indexer/internal/sub/sub.go: what each event does to the tables. An event's JSON is read back as
-- what the chain encoded; a failed statement is logged, and the table stays.
use l1_modular_blockchain.Common.{
  ℕ, zero, suc, ◌*◌, String, true, Option, none, some, List, [], ◌∷◌, ltb, if◌then◌else◌,
}
use l1_modular_blockchain.Int64.{ℤ}
use l1_modular_blockchain.Types.{
  Event, Payload, service_registered, inference_requested, request_finalized, request_refunded,
  ServiceRegisteredPayload, InferenceRequestedPayload, RequestFinalizedPayload,
  RequestRefundedPayload,
}
use l1_modular_blockchain.Indexer.Sqlite.{Sqlite}
use l1_modular_blockchain.Indexer.Store.{
  Db, upsert_service, upsert_request, finalize_row, refund_row,
}

-- The part of a request's result that the indexer reads.
pub record Output : Type 0 where
  pub output_hash : String
  pub output_uri : String
  pub output_text : String

-- How the chain answered `GET /requests/{id}`: not at all or with an error status, or with a
-- request that may have a result.
pub data Fetched : Type 0 where
  unavailable : Fetched
  fetched : Option Output → Fetched

abbrev pub output_of : Fetched → Output
output_of (fetched (some output)) = output
output_of _ = record { output_hash = ""; output_uri = ""; output_text = "" }

-- An event with the answer that its handler gets from the chain.
pub record Delivery : Type 0 where
  pub event : Event
  pub answer : Fetched

module _ ⦃sqlite : Sqlite⦄ where
  -- `if err != nil { logger.Error(...) }`
  abbrev pub or_logged : Db → Option Db → Db
  or_logged db none = db
  or_logged db (some next) = next

  unfoldable pub handle_service_registered : Db → ServiceRegisteredPayload → ℤ → Db
  unfolding upsert_service
  handle_service_registered db p height = or_logged db (
      upsert_service db (record {
        id = p.service_id;
        owner = p.owner;
        name = p.name;
        description = p.description;
        price_denom = p.price.denom;
        price_amount = p.price.amount;
        verification_domain_id = 0;
        active = true;
        created_at_height = height;
      }))

  unfoldable pub handle_inference_requested : Db → InferenceRequestedPayload → ℤ → Db
  unfolding upsert_request
  handle_inference_requested db p height = or_logged db (
      upsert_request db (record {
        id = p.request_id;
        service_id = p.service_id;
        requester = p.requester;
        input_hash = p.input_hash;
        input_uri = p.input_uri;
        input_text = p.input_text;
        escrow_denom = p.escrow.denom;
        escrow_amount = p.escrow.amount;
        deadline_height = p.deadline_height;
        status = "PENDING";
        created_at_height = height;
        finalized_at_height = none;
        output_hash = none;
        output_uri = none;
        output_text = none;
        provider = none;
        paid_denom = none;
        paid_amount = none;
      }))

  unfoldable pub handle_request_finalized : Db → RequestFinalizedPayload → Fetched → ℤ → Db
  unfolding finalize_row
  handle_request_finalized db p answer height =
      let output = output_of answer in
      or_logged db (
        finalize_row db p.request_id p.provider output.output_hash output.output_uri
          output.output_text p.paid.denom p.paid.amount height)

  unfoldable pub handle_request_refunded : Db → RequestRefundedPayload → ℤ → Db
  unfolding refund_row
  handle_request_refunded db p height = or_logged db (refund_row db p.request_id height)

  -- The switch of `subscribe`: the other events change nothing.
  abbrev pub handle_payload : Db → ℤ → Fetched → Payload → Db
  handle_payload db height answer (service_registered p) = handle_service_registered db p height
  handle_payload db height answer (inference_requested p) = handle_inference_requested db p height
  handle_payload db height answer (request_finalized p) =
      handle_request_finalized db p answer height
  handle_payload db height answer (request_refunded p) = handle_request_refunded db p height
  handle_payload db height answer _ = db

  unfoldable pub handle : Db → Delivery → Db
  handle db d = handle_payload db d.event.block_height d.answer d.event.payload

  -- The events of a stream, in their order.
  unfoldable pub ingest : Db → List Delivery → Db
  ingest db [] = db
  ingest db (d ∷ ds) = ingest (handle db d) ds

-- `Run`: the pause before a retry, in seconds.
abbrev pub max_backoff : ℕ
max_backoff = 30

unfoldable pub next_backoff : ℕ → ℕ
next_backoff backoff = if ltb backoff max_backoff then backoff * 2 else backoff

unfoldable pub backoff_after : ℕ → ℕ
backoff_after zero = 1
backoff_after (suc retries) = next_backoff (backoff_after retries)
