-- ===== src/Indexer/Rows.antt =====
-- About the row of one request under the events of indexer/internal/sub/sub.go.
use l1_modular_blockchain.Common.{
  ℕ, ◌≡◌, refl, ◌∙◌, Bool, true, false, ◌&&◌, Option, none, some, arith, if◌then◌else◌, ◌==◌,
  is_some, Bool-cases, Option-cases, inl, inr,
}
use l1_modular_blockchain.Int64.{ℤ}
use l1_modular_blockchain.Types.{
  Payload, service_registered, inference_requested, request_finalized, request_refunded,
  InferenceRequestedPayload, RequestFinalizedPayload,
}
use l1_modular_blockchain.Indexer.Sqlite.{Sqlite}
use l1_modular_blockchain.Indexer.Store.{
  ServiceRow, RequestRow, Db, update_request, upsert_request_row, upsert_service,
}
use l1_modular_blockchain.Indexer.Sub.{
  Delivery, Fetched, Output, output_of, or_logged, handle_payload, handle_service_registered,
  handle_inference_requested, handle_request_finalized, handle_request_refunded,
}

-- The row of a new request, of one that was paid for, and of one that was paid back.
abbrev pub asked_row : InferenceRequestedPayload → ℤ → RequestRow
asked_row p height = record {
  id = p.request_id;
  service_id = p.service_id;
  requester = p.requester;
  input_hash = p.input_hash;
  input_uri = p.input_uri;
  input_text = p.input_text;
  escrow_denom = p.escrow.denom;
  escrow_amount = p.escrow.amount;
  deadline_height = p.deadline_height;
  status = "PENDING";
  created_at_height = height;
  finalized_at_height = none;
  output_hash = none;
  output_uri = none;
  output_text = none;
  provider = none;
  paid_denom = none;
  paid_amount = none;
}

abbrev pub paid_row : RequestFinalizedPayload → Output → ℤ → RequestRow → RequestRow
paid_row p output height r = record r {
  status = "FINALIZED";
  finalized_at_height = some height;
  output_hash = some output.output_hash;
  output_uri = some output.output_uri;
  output_text = some output.output_text;
  provider = some p.provider;
  paid_denom = some p.paid.denom;
  paid_amount = some p.paid.amount;
}

abbrev pub paid_back_row : ℤ → RequestRow → RequestRow
paid_back_row height r = record r { status = "REFUNDED"; finalized_at_height = some height }

abbrev pub reopened : RequestRow → RequestRow
reopened r = record r { status = "PENDING" }

-- What a delivery means to the row of the request `id`: an event without a handler is quiet.
pub data Concern : Type 0 where
  quiet : Concern
  asks : InferenceRequestedPayload → ℤ → Concern
  pays : RequestFinalizedPayload → Output → ℤ → Concern
  pays_back : ℤ → Concern

abbrev pub concern_in : ℕ → ℤ → Fetched → Payload → Concern
concern_in id height answer (inference_requested p) =
    if p.request_id == id then asks p height else quiet
concern_in id height answer (request_finalized p) =
    if p.request_id == id then pays p (output_of answer) height else quiet
concern_in id height answer (request_refunded p) =
    if p.request_id == id then pays_back height else quiet
concern_in id height answer _ = quiet

abbrev pub concern : ℕ → Delivery → Concern
concern id d = concern_in id d.event.block_height d.answer d.event.payload

abbrev pub react_new : Concern → Option RequestRow
react_new (asks p height) = some (asked_row p height)
react_new _ = none

abbrev pub react : Concern → RequestRow → RequestRow
react quiet r = r
react (asks p height) r = reopened r
react (pays p output height) r = paid_row p output height r
react (pays_back height) r = paid_back_row height r

module _ ⦃sqlite : Sqlite⦄ where
  open sqlite use {row, save, binds, row-save_self, row-save_ne}

  -- The driver takes the numbers of the event; the service of a new request is there.
  abbrev pub is_bound : Payload → Bool
  is_bound (inference_requested p) =
      binds p.request_id && binds p.service_id && binds p.escrow.amount
  is_bound (request_finalized p) = binds p.paid.amount && binds p.request_id
  is_bound (request_refunded p) = binds p.request_id
  is_bound _ = true

  abbrev pub is_served : Db → Payload → Bool
  is_served db (inference_requested p) = is_some (row db.services p.service_id)
  is_served db _ = true

  -- No statement on services changes a request.
  upsert_service-requests :
      (db : Db) (svc : ServiceRow) → (or_logged db (upsert_service db svc)).requests ≡ db.requests
  unfolding upsert_service
  upsert_service-requests db svc = elim (Option-cases (row db.services svc.id)) [
    | inl fresh ↦ rw fresh (ground arith)
    | inr (old, known) ↦ rw known (ground arith)
  ]

  saved_self :
      (db : Db) (id j : ℕ) (r : RequestRow) → j ≡ id → row (save db.requests j r) id ≡ some r
  saved_self db id j r e = rw (← e) (row-save_self db.requests j r)

  saved_other :
      (db : Db) (id j : ℕ) (r : RequestRow)
      → (j == id) ≡ false
      → row (save db.requests j r) id ≡ row db.requests id
  saved_other db id j r other = row-save_ne db.requests id j r (λ e. ground arith)

  -- A statement on the request `j`, seen from the request `id`.
  update-other :
      (db : Db) (id j : ℕ) (change : RequestRow → RequestRow) (o : Option RequestRow)
      → (j == id) ≡ false
      → row (or_logged db (update_request db j change o)).requests id ≡ row db.requests id
  update-other db id j change none other = refl
  update-other db id j change (some r) other = saved_other db id j (change r) other

  upsert_row-other :
      (db : Db) (id : ℕ) (r : RequestRow) (o : Option RequestRow)
      → (r.id == id) ≡ false
      → row (or_logged db (upsert_request_row db r o)).requests id ≡ row db.requests id
  upsert_row-other db id r (some old) other = saved_other db id r.id _ other
  upsert_row-other db id r none other = elim (Bool-cases (is_some (row db.services r.service_id))) [
    | inl served ↦ rw served (saved_other db id r.id _ other)
    | inr not_served ↦ rw not_served refl
  ]

  -- An event on another request, or on none.
  pub handle_payload-quiet :
      (id : ℕ) (db : Db) (height : ℤ) (answer : Fetched) (p : Payload)
      → is_bound p ≡ true
      → concern_in id height answer p ≡ quiet
      → row (handle_payload db height answer p).requests id ≡ row db.requests id
  unfolding handle_inference_requested handle_service_registered handle_request_finalized
      handle_request_refunded
  handle_payload-quiet id db height answer (service_registered p) bound q =
      rw (upsert_service-requests db) refl
  handle_payload-quiet id db height answer (inference_requested p) bound q =
      rw bound (upsert_row-other db id (asked_row p height) _ (ground arith))
  handle_payload-quiet id db height answer (request_finalized p) bound q =
      rw bound (update-other db id p.request_id _ _ (ground arith))
  handle_payload-quiet id db height answer (request_refunded p) bound q =
      rw bound (update-other db id p.request_id _ _ (ground arith))
  handle_payload-quiet id db height answer _ bound q = refl

  -- What an event does to the row of `id`, if it had none and if it had one.
  pub handle_payload-new :
      (id : ℕ) (db : Db) (height : ℤ) (answer : Fetched) (p : Payload)
      → row db.requests id ≡ none
      → is_bound p ≡ true
      → is_served db p ≡ true
      → row (handle_payload db height answer p).requests id
        ≡ react_new (concern_in id height answer p)
  unfolding handle_inference_requested handle_request_finalized handle_request_refunded
  handle_payload-new id db height answer (inference_requested p) absent bound served =
      elim (Bool-cases (p.request_id == id)) [
        | inl same ↦
            let e : p.request_id ≡ id = ground arith in
            let fresh : row db.requests p.request_id ≡ none = rw e absent in
            rw (bound, fresh, served, same) (saved_self db id p.request_id (asked_row p height) e)
        | inr other ↦ rw other (
            handle_payload-quiet id db height answer (inference_requested p) bound (rw other refl)
            ∙ absent)
      ]
  handle_payload-new id db height answer (request_finalized p) absent bound served =
      elim (Bool-cases (p.request_id == id)) [
        | inl same ↦
            let e : p.request_id ≡ id = ground arith in
            let fresh : row db.requests p.request_id ≡ none = rw e absent in
            rw (bound, fresh, same) absent
        | inr other ↦ rw other (
            handle_payload-quiet id db height answer (request_finalized p) bound (rw other refl)
            ∙ absent)
      ]
  handle_payload-new id db height answer (request_refunded p) absent bound served =
      elim (Bool-cases (p.request_id == id)) [
        | inl same ↦
            let e : p.request_id ≡ id = ground arith in
            let fresh : row db.requests p.request_id ≡ none = rw e absent in
            rw (bound, fresh, same) absent
        | inr other ↦ rw other (
            handle_payload-quiet id db height answer (request_refunded p) bound (rw other refl)
            ∙ absent)
      ]
  handle_payload-new id db height answer p absent bound served =
      handle_payload-quiet id db height answer p bound refl ∙ absent

  pub handle_payload-old :
      (id : ℕ) (db : Db) (height : ℤ) (answer : Fetched) (p : Payload) (r : RequestRow)
      → row db.requests id ≡ some r
      → is_bound p ≡ true
      → row (handle_payload db height answer p).requests id
        ≡ some (react (concern_in id height answer p) r)
  unfolding handle_inference_requested handle_request_finalized handle_request_refunded
  handle_payload-old id db height answer (inference_requested p) r here bound =
      elim (Bool-cases (p.request_id == id)) [
        | inl same ↦
            let e : p.request_id ≡ id = ground arith in
            let known : row db.requests p.request_id ≡ some r = rw e here in
            rw (bound, known, same) (saved_self db id p.request_id _ e)
        | inr other ↦ rw other (
            handle_payload-quiet id db height answer (inference_requested p) bound (rw other refl)
            ∙ here)
      ]
  handle_payload-old id db height answer (request_finalized p) r here bound =
      elim (Bool-cases (p.request_id == id)) [
        | inl same ↦
            let e : p.request_id ≡ id = ground arith in
            let known : row db.requests p.request_id ≡ some r = rw e here in
            rw (bound, known, same) (saved_self db id p.request_id _ e)
        | inr other ↦ rw other (
            handle_payload-quiet id db height answer (request_finalized p) bound (rw other refl)
            ∙ here)
      ]
  handle_payload-old id db height answer (request_refunded p) r here bound =
      elim (Bool-cases (p.request_id == id)) [
        | inl same ↦
            let e : p.request_id ≡ id = ground arith in
            let known : row db.requests p.request_id ≡ some r = rw e here in
            rw (bound, known, same) (saved_self db id p.request_id _ e)
        | inr other ↦ rw other (
            handle_payload-quiet id db height answer (request_refunded p) bound (rw other refl)
            ∙ here)
      ]
  handle_payload-old id db height answer p r here bound =
      handle_payload-quiet id db height answer p bound refl ∙ here
