-- ===== src/Tests/Mirror.antt =====
-- The read model and the stream, on a few events.
use l1_modular_blockchain.Common.{
  ◌≡◌, ◌^◌, refl, arith, true, some, List, [], ◌∷◌, ◌++◌, ltb, length, ◌==◌, if◌then◌else◌,
}
use l1_modular_blockchain.Int64.{pos}
use l1_modular_blockchain.Types.{
  Event, Payload, InferenceRequestedPayload, inference_requested, request_finalized,
  request_slashed,
}
use l1_modular_blockchain.Bolt.{get-put_self, get-put_ne}
use l1_modular_blockchain.Stream.Text.{Text, codes}
use l1_modular_blockchain.Stream.Writer.{
  EventJson, OnOneLine, Turn, heartbeat, emitted, event_type, write_stream, sent_events,
}
use l1_modular_blockchain.Stream.Reader.{read_stream}
use l1_modular_blockchain.Stream.Received.{read_stream-write_stream}
use l1_modular_blockchain.Indexer.Sqlite.{Sqlite}
use l1_modular_blockchain.Indexer.Store.{ServiceRow, RequestRow, Db}
use l1_modular_blockchain.Indexer.Sub.{Delivery, Fetched, unavailable, fetched, ingest}
use l1_modular_blockchain.Indexer.Rows.{asked_row}
use l1_modular_blockchain.Indexer.Replay.{ingest-again, row_from}
use l1_modular_blockchain.Indexer.Subscribe.{
  deliveries, subscribe, subscribe-row_from, subscribe-unpaid,
}
use l1_modular_blockchain.Tests.Fixtures.{bolt, coin}

instance abbrev sqlite : Sqlite
sqlite = record {
  Rows = bolt.Table;
  no_rows = bolt.no_rows;
  row = bolt.get;
  save = bolt.put;
  scan = bolt.cursor;
  row-save_self = λ t id v. get-put_self t id v;
  row-save_ne = λ t j id v ne. get-put_ne t j id v ne;
  scan-no_rows = refl;
  scan-save = λ t id v. refl;
  scan-Ascending = bolt.cursor-Ascending;
  row-scan = λ t id. refl;
  binds = λ n. ltb n (2 ^ 63);
  binds_lem = λ n h. ground arith;
}

abbrev translator : ServiceRow
translator = record {
  id = 7;
  owner = "ann";
  name = "translator";
  description = "";
  price_denom = "aios";
  price_amount = 10;
  verification_domain_id = 0;
  active = true;
  created_at_height = pos 0;
}

abbrev offers : Db
offers = record { services = sqlite.save sqlite.no_rows 7 translator; requests = sqlite.no_rows }

abbrev asking : InferenceRequestedPayload
asking = record {
  request_id = 9;
  service_id = 7;
  requester = "bob";
  input_hash = "in";
  input_uri = "inline:in";
  input_text = "hello";
  escrow = coin 10;
  deadline_height = pos 20;
}

abbrev question : Event
question = record { block_height = pos 3; payload = inference_requested asking }

abbrev payment : Event
payment = record {
  block_height = pos 5;
  payload = request_finalized (record {
    request_id = 9;
    provider = "ann";
    paid = coin 10;
    provider_bond_returned = coin 0;
  });
}

abbrev bonjour : Fetched
bonjour = fetched (some (record { output_hash = "out"; output_uri = ""; output_text = "bonjour" }))

abbrev two_deliveries : List Delivery
two_deliveries =
    record { event = question; answer = unavailable }
    ∷ record { event = payment; answer = bonjour }
    ∷ []

ingest-again_example :
    sqlite.row (ingest (ingest offers two_deliveries) two_deliveries).requests 9
    ≡ sqlite.row (ingest offers two_deliveries).requests 9
ingest-again_example =
    ingest-again 9 two_deliveries offers refl (refl, (refl, tt)) (refl, (refl, tt)) refl

-- A JSON whose only text stands for the question.
abbrev json : EventJson
json = record {
  marshal = λ e. b'{' ∷ b'}' ∷ [];
  unmarshal = λ t. some question;
  marshal-object = λ e. ([], refl, tt);
}

abbrev turns : List Turn
turns = heartbeat ∷ emitted question ∷ heartbeat ∷ []

read_stream-write_stream_example :
    read_stream json (write_stream json (codes "InferenceRequested" ∷ []) turns)
    ≡ sent_events (codes "InferenceRequested" ∷ []) turns
unfolding codes event_type
read_stream-write_stream_example =
    read_stream-write_stream json (codes "InferenceRequested" ∷ []) turns (refl, tt)

subscribe-row_from_example :
    sqlite.row (subscribe json (λ e. unavailable) offers (write_stream json [] turns)).requests 9
    ≡ row_from 9 (deliveries (λ e. unavailable) (sent_events [] turns))
subscribe-row_from_example =
    subscribe-row_from json (λ e. unavailable) 9 turns offers (refl, tt) refl (refl, tt) (refl, tt)
      refl

-- A dispute that the provider has lost.
abbrev slashing : Event
slashing = record {
  block_height = pos 8;
  payload = request_slashed (record {
    request_id = 9;
    provider = "ann";
    challenger = "cid";
    refunded = coin 10;
    provider_bond_slashed = coin 50;
    challenger_bond_returned = coin 50;
    voucher_bonds_forfeited_to_treasury = 0;
    challenger_voucher_bonds_returned = 0;
  });
}

-- A JSON whose two texts are told apart by their length.
abbrev fields_of : Payload → Text
fields_of (request_slashed p) = b' ' ∷ []
fields_of _ = []

fields_of_lem : (payload : Payload) → OnOneLine (fields_of payload)
fields_of_lem (request_slashed p) = (refl, tt)
fields_of_lem _ = tt

abbrev two_texts : EventJson
two_texts = record {
  marshal = λ e. b'{' ∷ (fields_of e.payload ++ b'}' ∷ []);
  unmarshal = λ t. if length t == 2 then some question else some slashing;
  marshal-object = λ e. (fields_of e.payload, refl, fields_of_lem e.payload);
}

abbrev lost : List Turn
lost = emitted question ∷ emitted slashing ∷ []

abbrev asked : RequestRow
asked = asked_row asking (pos 3)

subscribe-unpaid_example : asked.status ≡ "PENDING"
subscribe-unpaid_example =
    subscribe-unpaid two_texts (λ e. unavailable) 9 lost offers asked (refl, (refl, tt)) refl
      (refl, (refl, tt)) (refl, (refl, tt)) refl (refl, (refl, tt))
      (subscribe-row_from two_texts (λ e. unavailable) 9 lost offers (refl, (refl, tt)) refl
        (refl, (refl, tt)) (refl, (refl, tt)) refl)
