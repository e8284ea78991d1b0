-- ===== src/State/Reads.antt =====
-- The public reads of chain/internal/state/state.go, and `SetAuthority`. A list that `json` reads
-- back does not fail.
use Prim.Native.Char.{code}
use Prim.Native.String.{len}
use l1_modular_blockchain.Common.{
  ℕ, String, Bool, false, not, ◌&&◌, ◌||◌, Option, none, some, List, ◌==◌, if◌then◌else◌, str_eq,
  is_some, select,
}
use l1_modular_blockchain.Int64.{ℤ, to_int64}
use l1_modular_blockchain.Types.{
  Service, VerificationDomain, InferenceRequest, RequestStatus, pending, submitted, challenged,
  finalized, slashed, refunded, invalid_address,
}
use l1_modular_blockchain.Outcome.{Outcome, ok, ◌>>◌, refuse_if}
use l1_modular_blockchain.Bolt.{Bolt}
use l1_modular_blockchain.State.Chain.{World, module_treasury_addr}
use l1_modular_blockchain.State.Bank.{balance}
use l1_modular_blockchain.State.Stores.{rows}
use l1_modular_blockchain.Tx.Wire.{decode_hex}

-- The texts of the statuses.
unfoldable pub status_text : RequestStatus → String
status_text pending = "PENDING"
status_text submitted = "SUBMITTED"
status_text challenged = "CHALLENGED"
status_text finalized = "FINALIZED"
status_text slashed = "SLASHED"
status_text refunded = "REFUNDED"

-- `strings.HasPrefix` with `strings.TrimPrefix`
unfoldable pub strip_prefix : String → String → Option String
strip_prefix String.[] s = some s
strip_prefix (String.◌∷◌ c p) String.[] = none
strip_prefix (String.◌∷◌ c p) (String.◌∷◌ d s) = if code c == code d then strip_prefix p s else none

abbrev is_address_body : Option String → Bool
is_address_body none = false
is_address_body (some body) = len body == 40 && is_some (decode_hex body)

unfoldable pub is_valid_address : String → Bool
unfolding strip_prefix
is_valid_address s = is_address_body (strip_prefix "aios1" s)

module _ ⦃bolt : Bolt⦄ where
  unfoldable pub set_authority : World → String → Outcome World
  set_authority w addr = do
    refuse_if (not (is_valid_address addr)) invalid_address
    ok (record w { authority = addr })

  abbrev pub height_of : World → ℤ
  height_of w = to_int64 w.height

  abbrev pub treasury_balance : World → ℕ
  treasury_balance w = balance w.accounts module_treasury_addr

  unfoldable pub list_services : World → List Service
  list_services w = rows w.services

  unfoldable pub list_domains : World → List VerificationDomain
  list_domains w = rows w.domains

  -- The two `continue`s: an empty filter lets all pass.
  abbrev pub is_listed : String → ℕ → InferenceRequest → Bool
  is_listed filter_status filter_service r =
      (str_eq filter_status "" || str_eq (status_text r.status) filter_status)
      && (filter_service == 0 || r.service_id == filter_service)

  unfoldable pub list_requests : World → String → ℕ → List InferenceRequest
  unfolding status_text
  list_requests w filter_status filter_service =
      select (is_listed filter_status filter_service) (rows w.requests)
