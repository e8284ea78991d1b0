-- ===== src/Indexer/Api.antt =====
-- indexer/internal/api/api.go: the routes of the read model.
use l1_modular_blockchain.Common.{ℕ, String, Option, none, some, List}
use l1_modular_blockchain.Http.{
  Response, status_ok, bad_request, not_found, internal_server_error, ParsedUint, parsed,
  parse_uint, parsed_or_default,
}
use l1_modular_blockchain.Indexer.Sqlite.{Sqlite}
use l1_modular_blockchain.Indexer.Store.{
  ServiceRow, RequestRow, Stats, Db, Lookup, found, no_such_row, rejected, get_service_row,
  list_service_rows, get_request_row, list_request_rows, stats_summary,
}

pub data Body : Type 0 where
  healthy : Body
  services : List ServiceRow → Body
  one_service : ServiceRow → Body
  requests : List RequestRow → Body
  one_request : RequestRow → Body
  stats : Stats → Body
  -- `{"error": ...}`
  failed : Body

-- The routes with what they read of a request.
pub data Call : Type 0 where
  health list_services get_stats : Call
  get_service : String → Call
  list_requests : String → String → Call
  get_request : String → Call

abbrev pub answered : Body → Response Body
answered body = record { status = status_ok; body = body }

abbrev pub failed_with : ℕ → Response Body
failed_with status = record { status = status; body = failed }

abbrev pub found_or_error : {A : Type 0} → (A → Body) → Lookup A → Response Body
found_or_error body (found a) = answered (body a)
found_or_error body no_such_row = failed_with not_found
found_or_error body rejected = failed_with internal_server_error

abbrev pub by_number : (ℕ → Response Body) → ParsedUint → Response Body
by_number lookup (parsed n) = lookup n
by_number lookup _ = failed_with bad_request

abbrev pub list_or_error : Option (List RequestRow) → Response Body
list_or_error none = failed_with internal_server_error
list_or_error (some rs) = answered (requests rs)

module _ ⦃sqlite : Sqlite⦄ where
  unfoldable pub serve : Db → Call → Response Body
  unfolding list_service_rows get_service_row get_request_row list_request_rows stats_summary
  serve db health = answered healthy
  serve db list_services = answered (services (list_service_rows db))
  serve db (get_service id) =
      by_number (λ n. found_or_error one_service (get_service_row db n)) (parse_uint id)
  serve db (list_requests status service_id) =
      list_or_error (list_request_rows db status (parsed_or_default (parse_uint service_id)))
  serve db (get_request id) =
      by_number (λ n. found_or_error one_request (get_request_row db n)) (parse_uint id)
  serve db get_stats = answered (stats (stats_summary db))
