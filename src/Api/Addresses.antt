-- ===== src/Api/Addresses.antt =====
-- About `AddressFromPubKey` and `IsValidAddress` of chain/internal/types/types.go.
use Prim.Native.Char.{code}
use Prim.Native.String.{len}
use l1_modular_blockchain.Common.{
  ℕ, ◌/◌, ◌%◌, ◌≡◌, refl, true, false, List, [], ◌∷◌, arith, take, is_some, ltb, Bool-cases, inl,
  inr,
}
use l1_modular_blockchain.Outcome.{ok, refuse_if}
use l1_modular_blockchain.Bolt.{Bolt}
use l1_modular_blockchain.State.{World}
use l1_modular_blockchain.State.Reads.{is_valid_address, set_authority}
use l1_modular_blockchain.Tx.Wire.{
  Codec, hex_value, hex_digit, decode_hex, encode_hex, address_from_pub_key,
}
use l1_modular_blockchain.Tx.Hex.{hex_value-hex_digit}
use l1_modular_blockchain.Solvency.Signers.{length-encode_hex, length-take, behind_prefix}

past_nine : (n : ℕ) → ltb n 16 ≡ false → hex_digit n ≡ "f"
unfolding hex_digit
past_nine n h = ground arith

digit_read : (n : ℕ) → is_some (hex_value (code (hex_digit n))) ≡ true
unfolding hex_value
digit_read n = elim (Bool-cases (ltb n 16)) [
  | inl small ↦ rw (hex_value-hex_digit n (ground arith)) refl
  | inr large ↦ rw (past_nine n large) refl
]

encode_hex-read : (bs : List ℕ) → is_some (decode_hex (encode_hex bs)) ≡ true
unfolding decode_hex encode_hex
encode_hex-read [] = refl
encode_hex-read (b ∷ bs) =
    ground (arith, digit_read (b / 16), digit_read (b % 16), encode_hex-read bs)

pub address-valid :
    (codec : Codec) (key : List ℕ) → is_valid_address (address_from_pub_key codec key) ≡ true
unfolding is_valid_address address_from_pub_key
address-valid codec key =
    let digits = take 20 (codec.sha256 key) in
    let size : len (encode_hex digits) ≡ 40 = omega (
      arith,
      length-encode_hex digits,
      length-take 20 (codec.sha256 key),
      codec.sha256-length key,
    ) in
    rw (behind_prefix (encode_hex digits), size, encode_hex-read digits) refl

module _ ⦃bolt : Bolt⦄ where
  -- The address of any key is valid: SetAuthority takes it, and changes nothing but the authority.
  pub set_authority-address :
      (codec : Codec) (key : List ℕ) (w : World)
      → set_authority w (address_from_pub_key codec key)
        ≡ ok (record w { authority = address_from_pub_key codec key })
  unfolding set_authority refuse_if
  set_authority-address codec key w = rw (address-valid codec key) refl
