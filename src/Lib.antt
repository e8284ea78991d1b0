-- ===== src/Lib.antt =====
-- A model of the chain of this repository (chain/internal), of its read model (indexer), and of its
-- clients (inference-node, determinism-harness), and what makes them correct. Accounts sign
-- transactions that offer AI services, pay for requests into an escrow account, and answer, challenge
-- and vouch for them with bonds; blocks bring requests to their ends.
--
-- Parts and files:
--   Types       chain/internal/types/types.go: coins, objects, parameters, messages, events, errors.
--   Int64       int64 and uint64 with the wrap-around of Go, on integers and natural numbers.
--   Outcome     a value or an error. `db.Update` rolls a failed transaction back, so an error carries
--               no state.
--   Bolt        what the code relies on of bbolt, as a record: tables whose keys are eight bytes and
--               whose cursor walks them in order, and dictionaries under texts. Bolt/Memory meets it.
--   State       chain/internal/state/state.go: the world (`State`, `init`), `credit` and `debit`
--               (State/Bank), the stores, `Mint` and `SetParams`, the keys, the event log, and the channel
--               of a subscriber (State/Feed).
--   Resolution  chain/internal/state/resolution.go: `executeSlash`, `executeDismiss`,
--               `executeVoidDueToDomain`.
--   Tx          chain/internal/state/tx.go: a function for each handler `apply...`, and `SubmitTx`
--               (Tx/Wire has the envelope's checks, Tx/Submit the nonce and the dispatch).
--   Block       chain/internal/state/block.go: `commitBlock`, and `RunBlockProducer` (Block/Producer) on the list of
--               its ticks.
--   Solvency    the invariant (Solvency/Stake), that each operation keeps it, and what follows.
--   Payouts     the payments that each end of a request has to make, and that the code makes them.
--   Http        the answer of a handler, and strconv's numbers.
--   Api         chain/internal/api: the routes (Api/Serve), the demo routes (Api/Demo), the signing of
--               transactions (Api/Sign), and the development keyring of chain/internal/state/state.go
--               (Api/Keyring, Api/Boot). State/Reads has the reads that the routes call.
--   Stream      `GET /events`: the text that the chain writes (`events` of chain/internal/api/api.go)
--               and the loop that reads it in indexer/internal/sub and inference-node/internal/chain.
--   Indexer     indexer/internal: the tables (Indexer/Store on Indexer/Sqlite), the handlers of events
--               (Indexer/Sub), the routes (Indexer/Api), and the rows that a stream leaves.
--   Node        inference-node: `Execute` and `handleEvent`.
--   Harness     determinism-harness: `checkRequest`, `fileVouch`, `fileChallenge`, the stored results.
--   Tests       a chain in memory, on which the theorems are applied.
--
-- How they interact: `SubmitTx` and `commitBlock` run on one world; handlers and blocks share the
-- three ways of resolving a request; each payment is a debit and a credit of the bank. A route reads
-- the world or submits a transaction. The events of the chain go over the stream to the indexer, whose
-- tables they change, to the worker, which answers requests, and to the harness, which replays them;
-- worker and harness submit signed transactions as the demo routes do.
--
-- Conventions. A bucket of JSON values is a table of records: that `json.Unmarshal` reads back what
-- `json.Marshal` wrote is taken for granted, and the `meta` bucket is a set of fields. An amount is a
-- natural number below 2 ^ 64 and wraps where the code's sum would. A height is an int64. Ed25519,
-- SHA-256 and the JSON of messages are the record `Codec`; of SHA-256 only the length of its result
-- is used. ed25519's signing is the record `Signing`, the JSON of events `EventJson`, SQLite the record
-- `Sqlite`, llama-server the record `Model`. What a client gets from a call of another process is an
-- argument, `none` for a call that fails. Loops are recursions on the lists that they walk, so no fuel is needed. The wall clock's
-- time in the last event of a block is an argument. A message's checks have one error each; the
-- errors that the code builds from a text are constructors too.
--
-- Not modelled: the commands with their flags and signals, headers and CORS, failures of the
-- network between the calls of one client, and the frontend: input and output around these operations.
pub mod Common
pub mod Int64
pub mod Types
pub mod Outcome
pub mod Bolt
pub mod State
pub mod Resolution
pub mod Tx
pub mod Block
pub mod Solvency
pub mod Payouts
pub mod Http
pub mod Api
pub mod Stream
pub mod Node
pub mod Harness
pub mod Indexer
pub mod Tests
