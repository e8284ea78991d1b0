-- ===== src/Indexer/Subscribe.antt =====
-- `subscribe` of indexer/internal/sub/sub.go on the stream that the chain writes, and the pauses of
-- `Run`.
use l1_modular_blockchain.Common.{
  ℕ, zero, suc, ◌*◌, ◌<◌, ◌≤◌, ◌≡◌, ap, sym, refl, ◌∙◌, Bool, false, ◌==◌, Bool-cases, inl, inr,
  true, none, some, List, [], ◌∷◌, ◌⊎◌, arith, map, All,
}
use l1_modular_blockchain.Types.{
  Event, Payload, request_finalized, request_refunded, inference_requested,
  InferenceRequestedPayload,
}
use l1_modular_blockchain.Int64.{ℤ}
use l1_modular_blockchain.Stream.Text.{Text}
use l1_modular_blockchain.Stream.Writer.{EventJson, ReadsBack, Turn, write_stream, sent_events}
use l1_modular_blockchain.Stream.Reader.{read_stream}
use l1_modular_blockchain.Stream.Received.{read_stream-write_stream}
use l1_modular_blockchain.Indexer.Sqlite.{Sqlite}
use l1_modular_blockchain.Indexer.Store.{Db, RequestRow}
use l1_modular_blockchain.Indexer.Sub.{
  Delivery, Fetched, ingest, max_backoff, next_backoff, backoff_after,
}
use l1_modular_blockchain.Indexer.Rows.{Concern, quiet, asks, concern, concern_in, asked_row}
use l1_modular_blockchain.Indexer.Replay.{
  AllBound, AllServed, in_order, absent, finished_by, row_from, ingest-row_from,
}

-- The two events that end the row of a request.
abbrev pub pays_for : ℕ → Payload → Bool
pays_for id (request_finalized p) = p.request_id == id
pays_for id (request_refunded p) = p.request_id == id
pays_for id _ = false

-- `answers` is what the chain answers about an event's request.
abbrev pub deliveries : (Event → Fetched) → List Event → List Delivery
deliveries answers = map λ e. record { event = e; answer = answers e }

module _ (id : ℕ) (answers : Event → Fetched) where
  abbrev Harmless : Concern → Type 0
  Harmless c = (c ≡ quiet) ⊎ ((p : InferenceRequestedPayload) × (height : ℤ) × (c ≡ asks p height))

  concern_in-unpaid :
      (height : ℤ) (answer : Fetched) (payload : Payload)
      → pays_for id payload ≡ false
      → Harmless (concern_in id height answer payload)
  concern_in-unpaid height answer (inference_requested p) h =
      elim (Bool-cases (p.request_id == id)) [
        | inl mine ↦ rw mine (inr (p, height, refl))
        | inr other ↦ rw other (inl refl)
      ]
  concern_in-unpaid height answer (request_finalized p) h = rw h (inl refl)
  concern_in-unpaid height answer (request_refunded p) h = rw h (inl refl)
  concern_in-unpaid height answer _ h = inl refl

  abbrev means :
      (e : Event)
      → pays_for id e.payload ≡ false
      → Harmless (concern id (record { event = e; answer = answers e }))
  means e h = concern_in-unpaid e.block_height (answers e) e.payload h

  finished_by-unpaid :
      (es : List Event) (r : RequestRow)
      → All (λ e. pays_for id e.payload ≡ false) es
      → finished_by id r (deliveries answers es) ≡ r
  finished_by-unpaid [] r h = refl
  finished_by-unpaid (e ∷ es) r h = elim (means e h.0) [
    | inl silent ↦ rw (finished_by, silent) (finished_by-unpaid es r h.1)
    | inr (p, height, asked) ↦ rw (finished_by, asked) (finished_by-unpaid es r h.1)
  ]

  row_from-unpaid :
      (es : List Event) (r : RequestRow)
      → All (λ e. pays_for id e.payload ≡ false) es
      → row_from id (deliveries answers es) ≡ some r
      → r.status ≡ "PENDING"
  row_from-unpaid [] r h e = cc
  row_from-unpaid (e ∷ es) r h there = elim (means e h.0) [
    | inl silent ↦ row_from-unpaid es r h.1 (rw (row_from, silent) at there)
    | inr (p, height, asked) ↦
        let found : some (finished_by id (asked_row p height) (deliveries answers es)) ≡ some r =
          rw (row_from, asked) at there in
        let same : r ≡ asked_row p height =
          cc (found, finished_by-unpaid es (asked_row p height) h.1) in
        ap (λ x. x.status) same
  ]

module _ ⦃sqlite : Sqlite⦄ (json : EventJson) (answers : Event → Fetched) where
  open sqlite use {row}

  unfoldable pub subscribe : Db → Text → Db
  subscribe db stream = ingest db (deliveries answers (read_stream json stream))

  -- Let the chain write a stream of events and heartbeats whose JSON is read back. A read model
  -- without the request's row that takes in the stream has, if the driver takes the numbers, each
  -- request's service is stored by then, and the request is asked for once and then finalized or
  -- refunded at most once, exactly this row: that of the first InferenceRequested of the request,
  -- as the first RequestFinalized or RequestRefunded after it leaves it. No other event counts,
  -- also not RequestSlashed, RequestDismissed and RequestVoided.
  pub subscribe-row_from :
      (id : ℕ) (turns : List Turn) (db : Db)
      → All (ReadsBack json) (sent_events [] turns)
      → row db.requests id ≡ none
      → AllBound (deliveries answers (sent_events [] turns))
      → AllServed db (deliveries answers (sent_events [] turns))
      → in_order id (some absent) (deliveries answers (sent_events [] turns)) ≡ true
      → row (subscribe db (write_stream json [] turns)).requests id
        ≡ row_from id (deliveries answers (sent_events [] turns))
  unfolding subscribe
  subscribe-row_from id turns db back here bound served ordered =
      ap (λ es. row (ingest db (deliveries answers es)).requests id)
        (read_stream-write_stream json [] turns back)
      ∙ ingest-row_from id (deliveries answers (sent_events [] turns)) db here bound served ordered

  -- Let the chain write a stream of events and heartbeats whose JSON is read back. In a read model
  -- without the request's row that takes in the stream, if the driver takes the numbers, each
  -- request's service is stored by then, and the request is asked for at most once, a request
  -- about which the stream has no RequestFinalized and no RequestRefunded is PENDING if it is
  -- there, also when a RequestSlashed, a RequestDismissed or a RequestVoided has reported its end.
  pub subscribe-unpaid :
      (id : ℕ) (turns : List Turn) (db : Db) (r : RequestRow)
      → All (ReadsBack json) (sent_events [] turns)
      → row db.requests id ≡ none
      → AllBound (deliveries answers (sent_events [] turns))
      → AllServed db (deliveries answers (sent_events [] turns))
      → in_order id (some absent) (deliveries answers (sent_events [] turns)) ≡ true
      → All (λ e. pays_for id e.payload ≡ false) (sent_events [] turns)
      → row (subscribe db (write_stream json [] turns)).requests id ≡ some r
      → r.status ≡ "PENDING"
  subscribe-unpaid id turns db r back here bound served ordered unpaid there =
      row_from-unpaid id answers (sent_events [] turns) r unpaid
        (sym (subscribe-row_from id turns db back here bound served ordered) ∙ there)

-- The pauses grow, and the last is above the bound that the code names.
pub backoff_after-le :
    (retries : ℕ)
    → (backoff_after retries ≤ backoff_after (suc retries))
      × (backoff_after retries < 2 * max_backoff)
unfolding backoff_after next_backoff
backoff_after-le zero = (omega arith, omega arith)
backoff_after-le (suc retries) =
    let before = backoff_after-le retries in ground (arith, before.0, before.1)
