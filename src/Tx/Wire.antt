-- ===== src/Tx/Wire.antt =====
-- The signed envelope: `ValidateBasic`, `CanonicalBytes`, hexadecimal, and the address of a key
-- (chain/internal/types). Ed25519, SHA-256 and JSON are Go's own packages, and fields of a record.
use Prim.Native.Char.{Char, code}
use Prim.Native.String.{◌++◌ as text_append}
use l1_modular_blockchain.Common.{
  ℕ, ◌+◌, ◌-◌, ◌*◌, ◌/◌, ◌%◌, ◌≡◌, String, Bool, not, ◌&&◌, Option, none, some, List, [], ◌∷◌,
  length, leb, ◌==◌, if◌then◌else◌, str_eq, is_some, take,
}
use l1_modular_blockchain.Types.{
  SignedTx, MsgRegisterService, MsgRequestInference, MsgSubmitResult, MsgTransfer,
  MsgRegisterDomain, MsgChallenge, MsgVouch, MsgUpdateService, MsgDeactivateService,
  MsgDeactivateDomain, MsgResolveChallenge, unknown_tx_type, pub_key_required, signature_required,
  payload_required, malformed_hex, malformed_payload, invalid_signature,
}
use l1_modular_blockchain.Outcome.{Outcome, ok, ◌>>=◌, ◌>>◌, refuse_if, or_fail}

-- What the code takes from crypto/ed25519, crypto/sha256 and encoding/json.
pub record Codec : Type 0 where
  -- `ed25519.Verify(pub, message, sig)`
  pub verify : List ℕ → List ℕ → List ℕ → Bool
  pub sha256 : List ℕ → List ℕ
  pub sha256-length : (bytes : List ℕ) → length (sha256 bytes) ≡ 32
  -- `json.Marshal` of an envelope, and `json.Unmarshal` of each payload
  pub marshal : SignedTx → Option (List ℕ)
  pub register_service : String → Option MsgRegisterService
  pub request_inference : String → Option MsgRequestInference
  pub submit_result : String → Option MsgSubmitResult
  pub transfer : String → Option MsgTransfer
  pub register_domain : String → Option MsgRegisterDomain
  pub challenge : String → Option MsgChallenge
  pub vouch : String → Option MsgVouch
  pub update_service : String → Option MsgUpdateService
  pub deactivate_service : String → Option MsgDeactivateService
  pub deactivate_domain : String → Option MsgDeactivateDomain
  pub resolve_challenge : String → Option MsgResolveChallenge

pub data TxType : Type 0 where
  register_service request_inference submit_result transfer register_domain : TxType
  challenge vouch update_service deactivate_service deactivate_domain : TxType
  resolve_challenge : TxType

-- The discriminators.
unfoldable pub tx_type : String → Option TxType
tx_type s =
    if str_eq s "register_service"
    then some register_service
    else if str_eq s "request_inference"
    then some request_inference
    else if str_eq s "submit_result"
    then some submit_result
    else if str_eq s "transfer"
    then some transfer
    else if str_eq s "register_domain"
    then some register_domain
    else if str_eq s "challenge"
    then some challenge
    else if str_eq s "vouch"
    then some vouch
    else if str_eq s "update_service"
    then some update_service
    else if str_eq s "deactivate_service"
    then some deactivate_service
    else if str_eq s "deactivate_domain"
    then some deactivate_domain
    else if str_eq s "resolve_challenge"
    then some resolve_challenge
    else none

-- encoding/hex: two digits to a byte.
unfoldable pub hex_value : ℕ → Option ℕ
hex_value c =
    if leb b'0' c && leb c b'9'
    then some (c - 48)
    else if leb b'a' c && leb c b'f'
    then some (c - 87)
    else if leb b'A' c && leb c b'F'
    then some (c - 55)
    else none

abbrev both : Option ℕ → Option ℕ → Option (List ℕ) → Option (List ℕ)
both (some h) (some l) (some rest) = some ((16 * h + l) ∷ rest)
both h l rest = none

unfoldable pub decode_hex : String → Option (List ℕ)
decode_hex String.[] = some []
decode_hex (String.◌∷◌ h String.[]) = none
decode_hex (String.◌∷◌ h (String.◌∷◌ l s)) =
    both (hex_value (code h)) (hex_value (code l)) (decode_hex s)

unfoldable pub hex_digit : ℕ → Char
hex_digit n =
    if n == 0
    then "0"
    else if n == 1
    then "1"
    else if n == 2
    then "2"
    else if n == 3
    then "3"
    else if n == 4
    then "4"
    else if n == 5
    then "5"
    else if n == 6
    then "6"
    else if n == 7
    then "7"
    else if n == 8
    then "8"
    else if n == 9
    then "9"
    else if n == 10
    then "a"
    else if n == 11
    then "b"
    else if n == 12
    then "c"
    else if n == 13
    then "d"
    else if n == 14
    then "e"
    else "f"

-- `hex.EncodeToString`
unfoldable pub encode_hex : List ℕ → String
encode_hex [] = String.[]
encode_hex (b ∷ bs) =
    String.◌∷◌ (hex_digit (b / 16)) (String.◌∷◌ (hex_digit (b % 16)) (encode_hex bs))

-- `AddressFromPubKey`: the prefix and the first twenty bytes of the hash.
unfoldable pub address_from_pub_key : Codec → List ℕ → String
address_from_pub_key codec pub_key =
    text_append "aios1" (encode_hex (take 20 (codec.sha256 pub_key)))

-- `CanonicalBytes`: the envelope without its signature.
unfoldable pub canonical_bytes : Codec → SignedTx → Option (List ℕ)
canonical_bytes codec tx = codec.marshal (record tx { signature_hex = "" })

unfoldable pub validate_basic : SignedTx → Outcome TxType
validate_basic tx = do
  kind ← or_fail (tx_type tx.type) unknown_tx_type
  refuse_if (str_eq tx.pub_key_hex "") pub_key_required
  refuse_if (not (is_some (decode_hex tx.pub_key_hex))) malformed_hex
  refuse_if (str_eq tx.signature_hex "") signature_required
  refuse_if (not (is_some (decode_hex tx.signature_hex))) malformed_hex
  refuse_if (str_eq tx.payload "") payload_required
  ok kind

-- The first part of `SubmitTx`: a well-formed envelope with a valid signature has a signer.
unfoldable pub authenticate : Codec → SignedTx → Outcome (TxType × String)
authenticate codec tx = do
  kind ← validate_basic tx
  pub_key ← or_fail (decode_hex tx.pub_key_hex) invalid_signature
  refuse_if (not (length pub_key == 32)) invalid_signature
  sig ← or_fail (decode_hex tx.signature_hex) invalid_signature
  refuse_if (not (length sig == 64)) invalid_signature
  message ← or_fail (canonical_bytes codec tx) malformed_payload
  refuse_if (not (codec.verify pub_key message sig)) invalid_signature
  ok (kind, address_from_pub_key codec pub_key)
