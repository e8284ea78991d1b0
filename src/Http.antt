-- ===== src/Http.antt =====
-- What the handlers of chain/internal/api and indexer/internal/api have in common: the answer, and
-- how strconv reads a number.
use Prim.Native.Char.{code}
use l1_modular_blockchain.Common.{
  ℕ, ◌+◌, ◌-◌, ◌*◌, ◌^◌, String, ◌&&◌, Option, none, some, ltb, leb, if◌then◌else◌, str_eq,
}

-- `writeJSON` and `writeError`: the status code, and what is encoded.
pub record Response (A : Type 0) : Type 0 where
  pub status : ℕ
  pub body : A

abbrev pub status_ok : ℕ
status_ok = 200

abbrev pub bad_request : ℕ
bad_request = 400

abbrev pub not_found : ℕ
not_found = 404

abbrev pub internal_server_error : ℕ
internal_server_error = 500

-- `strconv.ParseUint(s, 10, 64)`, with its two errors.
pub data ParsedUint : Type 0 where
  parsed : ℕ → ParsedUint
  invalid_syntax out_of_range : ParsedUint

-- The value of decimal digits, read from the left.
digits : ℕ → String → Option ℕ
digits n String.[] = some n
digits n (String.◌∷◌ c s) =
    if leb b'0' (code c) && leb (code c) b'9' then digits (10 * n + (code c - 48)) s else none

abbrev in_range : Option ℕ → ParsedUint
in_range none = invalid_syntax
in_range (some n) = if ltb n (2 ^ 64) then parsed n else out_of_range

unfoldable pub parse_uint : String → ParsedUint
unfolding digits
parse_uint s = if str_eq s "" then invalid_syntax else in_range (digits 0 s)

-- The value that comes with an error, which some handlers go on with.
abbrev pub parsed_or_default : ParsedUint → ℕ
parsed_or_default (parsed n) = n
parsed_or_default invalid_syntax = 0
parsed_or_default out_of_range = 2 ^ 64 - 1
