-- ===== src/Indexer/Replay.antt =====
-- About the stream of events that indexer/internal/sub/sub.go takes in, and takes in again when it
-- reconnects.
use l1_modular_blockchain.Common.{
  ℕ, ◌≡◌, refl, sym, ◌∙◌, ap, Bool, true, false, Option, none, some, List, [], ◌∷◌, All,
}
use l1_modular_blockchain.Int64.{ℤ}
use l1_modular_blockchain.Types.{InferenceRequestedPayload, RequestFinalizedPayload}
use l1_modular_blockchain.Indexer.Sqlite.{Sqlite}
use l1_modular_blockchain.Indexer.Store.{RequestRow, Db}
use l1_modular_blockchain.Indexer.Sub.{Delivery, Output, handle, ingest}
use l1_modular_blockchain.Indexer.Rows.{
  asked_row, reopened, Concern, quiet, asks, pays, pays_back, concern, react_new, react, is_bound,
  is_served, handle_payload-quiet, handle_payload-new, handle_payload-old,
}

-- How far a request has come in a stream.
pub data Phase : Type 0 where
  absent open_ over : Phase

-- The phase after an event: a request is asked for once, and then ends at most once.
abbrev pub after : Phase → Concern → Option Phase
after phase quiet = some phase
after absent (asks p height) = some open_
after open_ (pays p output height) = some over
after open_ (pays_back height) = some over
after phase c = none

abbrev pub in_order : ℕ → Option Phase → List Delivery → Bool
in_order id none ds = false
in_order id (some phase) [] = true
in_order id (some phase) (d ∷ ds) = in_order id (after phase (concern id d)) ds

-- The row that a stream in order leaves: that of its first request, as its first RequestFinalized or
-- RequestRefunded leaves it. RequestSlashed, RequestDismissed and RequestVoided end a request on the
-- chain too; the indexer has no handler for them, so they do not count here.
abbrev pub finished_by : ℕ → RequestRow → List Delivery → RequestRow
finished_by id r [] = r
finished_by id r (d ∷ ds) = elim (concern id d) [
  | pays p output height ↦ react (pays p output height) r
  | pays_back height ↦ react (pays_back height) r
  | _ ↦ finished_by id r ds
]

abbrev pub row_from : ℕ → List Delivery → Option RequestRow
row_from id [] = none
row_from id (d ∷ ds) = elim (concern id d) [
  | asks p height ↦ some (finished_by id (asked_row p height) ds)
  | _ ↦ row_from id ds
]

-- The cases of a concern, with their equation.
data Cases (c : Concern) : Type 0 where
  is_quiet : c ≡ quiet → Cases c
  is_asks : (p : InferenceRequestedPayload) (height : ℤ) → c ≡ asks p height → Cases c
  is_pays :
      (p : RequestFinalizedPayload) (output : Output) (height : ℤ)
      → c ≡ pays p output height
      → Cases c
  is_pays_back : (height : ℤ) → c ≡ pays_back height → Cases c

classify : (c : Concern) → Cases c
classify quiet = is_quiet refl
classify (asks p height) = is_asks p height refl
classify (pays p output height) = is_pays p output height refl
classify (pays_back height) = is_pays_back height refl

out_of_order : (id : ℕ) (ds : List Delivery) → in_order id none ds ≡ true → ⊥
out_of_order id ds h = cc

module _ ⦃sqlite : Sqlite⦄ where
  open sqlite use {row}

  abbrev pub AllBound : List Delivery → Type 0
  AllBound = All λ d. is_bound d.event.payload ≡ true

  -- Each request is for a service that the table has by then.
  abbrev pub AllServed : Db → List Delivery → Type 0
  AllServed db [] = Unit
  AllServed db (d ∷ ds) = (is_served db d.event.payload ≡ true) × AllServed (handle db d) ds

  handle-new :
      (id : ℕ) (db : Db) (d : Delivery)
      → row db.requests id ≡ none
      → is_bound d.event.payload ≡ true
      → is_served db d.event.payload ≡ true
      → row (handle db d).requests id ≡ react_new (concern id d)
  unfolding handle
  handle-new id db d = handle_payload-new id db d.event.block_height d.answer d.event.payload

  handle-old :
      (id : ℕ) (db : Db) (d : Delivery) (r : RequestRow)
      → row db.requests id ≡ some r
      → is_bound d.event.payload ≡ true
      → row (handle db d).requests id ≡ some (react (concern id d) r)
  unfolding handle
  handle-old id db d = handle_payload-old id db d.event.block_height d.answer d.event.payload

  handle-quiet :
      (id : ℕ) (db : Db) (d : Delivery)
      → is_bound d.event.payload ≡ true
      → concern id d ≡ quiet
      → row (handle db d).requests id ≡ row db.requests id
  unfolding handle
  handle-quiet id db d = handle_payload-quiet id db d.event.block_height d.answer d.event.payload

  -- A request that is over stays as it is.
  ingest-over :
      (id : ℕ) (ds : List Delivery) (db : Db) (r : RequestRow)
      → row db.requests id ≡ some r
      → AllBound ds
      → in_order id (some over) ds ≡ true
      → row (ingest db ds).requests id ≡ some r
  unfolding ingest
  ingest-over id [] db r here bound ordered = here
  ingest-over id (d ∷ ds) db r here bound ordered = elim (classify (concern id d)) [
    | is_quiet e ↦
        ingest-over id ds (handle db d) r (rw e at (handle-old id db d r here bound.0)) bound.1
          (rw (in_order, e) at ordered)
    | is_asks p height e ↦ absurd (out_of_order id ds (rw (in_order, e) at ordered))
    | is_pays p output height e ↦ absurd (out_of_order id ds (rw (in_order, e) at ordered))
    | is_pays_back height e ↦ absurd (out_of_order id ds (rw (in_order, e) at ordered))
  ]

  -- An open request becomes what the stream says, also from a row of an earlier time: `change` is
  -- what that row may have been before it was opened again.
  ingest-open :
      (id : ℕ) (ds : List Delivery) (db : Db) (r : RequestRow)
      → row db.requests id ≡ some r
      → AllBound ds
      → in_order id (some open_) ds ≡ true
      → row (ingest db ds).requests id ≡ some (finished_by id r ds)
  unfolding ingest
  ingest-open id [] db r here bound ordered = here
  ingest-open id (d ∷ ds) db r here bound ordered =
      let next = handle-old id db d r here bound.0 in
      elim (classify (concern id d)) [
        | is_quiet e ↦
            rw (finished_by, e)
              (ingest-open id ds (handle db d) r (rw e at next) bound.1
                (rw (in_order, e) at ordered))
        | is_asks p height e ↦ absurd (out_of_order id ds (rw (in_order, e) at ordered))
        | is_pays p output height e ↦
            rw (finished_by, e)
              (ingest-over id ds (handle db d) _ (rw e at next) bound.1
                (rw (in_order, e) at ordered))
        | is_pays_back height e ↦
            rw (finished_by, e)
              (ingest-over id ds (handle db d) _ (rw e at next) bound.1
                (rw (in_order, e) at ordered))
      ]

  pub ingest-row_from :
      (id : ℕ) (ds : List Delivery) (db : Db)
      → row db.requests id ≡ none
      → AllBound ds
      → AllServed db ds
      → in_order id (some absent) ds ≡ true
      → row (ingest db ds).requests id ≡ row_from id ds
  unfolding ingest
  ingest-row_from id [] db here bound served ordered = here
  ingest-row_from id (d ∷ ds) db here bound served ordered =
      let next = handle-new id db d here bound.0 served.0 in
      elim (classify (concern id d)) [
        | is_quiet e ↦
            rw (row_from, e)
              (ingest-row_from id ds (handle db d) (rw e at next) bound.1 served.1
                (rw (in_order, e) at ordered))
        | is_asks p height e ↦
            rw (row_from, e)
              (ingest-open id ds (handle db d) _ (rw e at next) bound.1
                (rw (in_order, e) at ordered))
        | is_pays p output height e ↦ absurd (out_of_order id ds (rw (in_order, e) at ordered))
        | is_pays_back height e ↦ absurd (out_of_order id ds (rw (in_order, e) at ordered))
      ]

  -- A request that was finished earlier is opened again by the replay, and finished again.
  replay-open :
      (id : ℕ) (ds : List Delivery) (db : Db) (r : RequestRow)
      → row db.requests id ≡ some (reopened (finished_by id r ds))
      → reopened r ≡ r
      → AllBound ds
      → in_order id (some open_) ds ≡ true
      → row (ingest db ds).requests id ≡ some (finished_by id r ds)
  unfolding ingest
  replay-open id [] db r here pending bound ordered = here ∙ ap some pending
  replay-open id (d ∷ ds) db r here pending bound ordered =
      let next = handle-old id db d _ here bound.0 in
      elim (classify (concern id d)) [
        | is_quiet e ↦
            rw (finished_by, e)
              (replay-open id ds (handle db d) r (rw (finished_by, e) at next) pending bound.1
                (rw (in_order, e) at ordered))
        | is_asks p height e ↦ absurd (out_of_order id ds (rw (in_order, e) at ordered))
        | is_pays p output height e ↦
            rw (finished_by, e)
              (ingest-over id ds (handle db d) _ (rw (finished_by, e) at next) bound.1
                (rw (in_order, e) at ordered))
        | is_pays_back height e ↦
            rw (finished_by, e)
              (ingest-over id ds (handle db d) _ (rw (finished_by, e) at next) bound.1
                (rw (in_order, e) at ordered))
      ]

  replay-row_from :
      (id : ℕ) (ds : List Delivery) (db : Db)
      → row db.requests id ≡ row_from id ds
      → AllBound ds
      → in_order id (some absent) ds ≡ true
      → row (ingest db ds).requests id ≡ row_from id ds
  unfolding ingest
  replay-row_from id [] db here bound ordered = here
  replay-row_from id (d ∷ ds) db here bound ordered = elim (classify (concern id d)) [
    | is_quiet e ↦
        rw (row_from, e)
          (replay-row_from id ds (handle db d)
            (handle-quiet id db d bound.0 e ∙ (rw (row_from, e) at here)) bound.1
            (rw (in_order, e) at ordered))
    | is_asks p height e ↦
        let next = handle-old id db d _ (rw (row_from, e) at here) bound.0 in
        rw (row_from, e)
          (replay-open id ds (handle db d) (asked_row p height) (rw e at next) refl bound.1
            (rw (in_order, e) at ordered))
    | is_pays p output height e ↦ absurd (out_of_order id ds (rw (in_order, e) at ordered))
    | is_pays_back height e ↦ absurd (out_of_order id ds (rw (in_order, e) at ordered))
  ]

  -- A read model without the request's row that takes in a list of events, and then the same list
  -- with the same answers of the chain again, has the same row of the request afterwards as after
  -- the first time, if the driver takes the numbers, each request's service is stored by then, and
  -- the request is asked for once and then ends at most once.
  pub ingest-again :
      (id : ℕ) (ds : List Delivery) (db : Db)
      → row db.requests id ≡ none
      → AllBound ds
      → AllServed db ds
      → in_order id (some absent) ds ≡ true
      → row (ingest (ingest db ds) ds).requests id ≡ row (ingest db ds).requests id
  ingest-again id ds db here bound served ordered =
      let first = ingest-row_from id ds db here bound served ordered in
      replay-row_from id ds (ingest db ds) first bound ordered ∙ sym first
