-- ===== src/Solvency/Signers.antt =====
-- About `AddressFromPubKey` of chain/internal/types/types.go, and the signer that `SubmitTx`
-- finds.
use Prim.Native.Char.{Char, code, len_utf8}
use Prim.Native.String.len
use Prim.Native.String.append
use Prim.Native.String.{len, ◌++◌ as text_append}
use l1_modular_blockchain.Common.{
  ℕ, ◌*◌, ◌/◌, ◌%◌, zero, suc, ◌≡◌, ◌≢◌, ◌≤◌, ◌<◌, refl, ap, sym, ◌∙◌, String, Option, some, none,
  List, [], ◌∷◌, arith, length, take, Bool, true, false, if◌then◌else◌,
}
use l1_modular_blockchain.Types.{SignedTx, invalid_signature, malformed_payload}
use l1_modular_blockchain.Outcome.{Ends, returns, Any, ◌then_by◌, past_guard, or_fail, anything}
use text.Mathlib.TextPositions.{len-append}
use l1_modular_blockchain.Bolt.{Bolt}
use l1_modular_blockchain.State.{module_escrow_addr}
use l1_modular_blockchain.Tx.Wire.{
  Codec, hex_digit, encode_hex, address_from_pub_key, validate_basic, authenticate, decode_hex,
  canonical_bytes,
}
use l1_modular_blockchain.Solvency.Stake.{IsSigner}

-- The seventh character, which is an `s` in the escrow account's address.
abbrev second : String → Option Char
second (String.◌∷◌ a (String.◌∷◌ b s)) = some b
second s = none

abbrev behind : ℕ → String → String
behind zero s = s
behind (suc n) String.[] = String.[]
behind (suc n) (String.◌∷◌ c s) = behind n s

abbrev seventh : String → Option Char
seventh s = second (behind 5 s)

escrow_seventh : seventh module_escrow_addr ≡ some "s"
escrow_seventh = refl

-- A character of the code range of the hexadecimal digits, in one byte.
record IsHexDigit (c : Char) : Type 0 where
  low : code c < 103
  single : len_utf8 c ≡ 1

either_digit :
    (b : Bool) (c d : Char) → IsHexDigit c → IsHexDigit d → IsHexDigit (if b then c else d)
either_digit true c d h k = h
either_digit false c d h k = k

hex_digit-IsHexDigit : (n : ℕ) → IsHexDigit (hex_digit n)
unfolding hex_digit
hex_digit-IsHexDigit n =
    either_digit _ "0" _ (record { low = omega arith; single = refl })
      (either_digit _ "1" _ (record { low = omega arith; single = refl })
        (either_digit _ "2" _ (record { low = omega arith; single = refl })
          (either_digit _ "3" _ (record { low = omega arith; single = refl })
            (either_digit _ "4" _ (record { low = omega arith; single = refl })
              (either_digit _ "5" _ (record { low = omega arith; single = refl })
                (either_digit _ "6" _ (record { low = omega arith; single = refl })
                  (either_digit _ "7" _ (record { low = omega arith; single = refl })
                    (either_digit _ "8" _ (record { low = omega arith; single = refl })
                      (either_digit _ "9" _ (record { low = omega arith; single = refl })
                        (either_digit _ "a" _ (record { low = omega arith; single = refl })
                          (either_digit _ "b" _ (record { low = omega arith; single = refl })
                            (either_digit _ "c" _ (record { low = omega arith; single = refl })
                              (either_digit _ "d" _ (record { low = omega arith; single = refl })
                                (either_digit _ "e" "f"
                                  (record { low = omega arith; single = refl })
                                  ((record { low = omega arith; single = refl }))))))))))))))))

-- The text of an address, character by character.
pub behind_prefix :
    (s : String)
    → text_append "aios1" s
      ≡ String.◌∷◌ "a" (String.◌∷◌ "i" (String.◌∷◌ "o" (String.◌∷◌ "s" (String.◌∷◌ "1" s))))
behind_prefix s =
    append.cons "a" "ios1" s
    ∙ ap (String.◌∷◌ "a") (
        append.cons "i" "os1" s
        ∙ ap (String.◌∷◌ "i") (
            append.cons "o" "s1" s
            ∙ ap (String.◌∷◌ "o") (
                append.cons "s" "1" s
                ∙ ap (String.◌∷◌ "s") (append.cons "1" "" s ∙ ap (String.◌∷◌ "1") (append.nil s)))))

encoded_seventh : (s : String) → seventh (text_append "aios1" s) ≡ second s
encoded_seventh s = ap seventh (behind_prefix s)

pub length-encode_hex : (bs : List ℕ) → len (encode_hex bs) ≡ 2 * length bs
unfolding encode_hex
length-encode_hex [] = len.nil
length-encode_hex (b ∷ bs) =
    let h = hex_digit (b / 16) in
    let l = hex_digit (b % 16) in
    omega (
      arith,
      length-encode_hex bs,
      len.cons h (String.◌∷◌ l (encode_hex bs)),
      len.cons l (encode_hex bs),
      (hex_digit-IsHexDigit (b / 16)).single,
      (hex_digit-IsHexDigit (b % 16)).single,
    )

pub length-take : (n : ℕ) (bs : List ℕ) → n ≤ length bs → length (take n bs) ≡ n
length-take zero bs h = refl
length-take (suc n) [] h = omega arith
length-take (suc n) (b ∷ bs) h = omega (arith, length-take n bs)

-- No text of hexadecimal digits has an `s` for its second character.
hex_second : (bs : List ℕ) → second (encode_hex bs) ≢ some "s"
unfolding encode_hex
hex_second [] e = cc
hex_second (b ∷ bs) e =
    let same : hex_digit (b % 16) ≡ "s" = cc in
    omega (arith, (hex_digit-IsHexDigit (b % 16)).low, ap code same)

module _ ⦃bolt : Bolt⦄ where
  open bolt use {accepts, accepts_lem}

  -- The address of a key is never that of the module escrow account, and bbolt takes it as a key.
  pub address-IsSigner : (codec : Codec) (key : List ℕ) → IsSigner (address_from_pub_key codec key)
  unfolding address_from_pub_key
  address-IsSigner codec key =
      let digits = take 20 (codec.sha256 key) in
      let size : len (text_append "aios1" (encode_hex digits)) ≡ 45 = omega (
        arith,
        len-append "aios1" (encode_hex digits),
        length-encode_hex digits,
        length-take 20 (codec.sha256 key),
        codec.sha256-length key,
      ) in
      record {
        apart =
            λ e. hex_second digits (sym (encoded_seventh (encode_hex digits)) ∙ sym (ap seventh e));
        storable = accepts_lem _ (omega (arith, size)) (omega (arith, size));
      }

  pub authenticate-IsSigner :
      (codec : Codec) (tx : SignedTx) → Ends Any (λ who. IsSigner who.1) (authenticate codec tx)
  unfolding authenticate
  authenticate-IsSigner codec tx = anything (validate_basic tx) then_by λ kind _.
      anything (or_fail (decode_hex tx.pub_key_hex) invalid_signature) then_by λ key _.
      past_guard _ _ λ _.
        anything (or_fail (decode_hex tx.signature_hex) invalid_signature) then_by λ sig _.
        past_guard _ _ λ _.
          anything (or_fail (canonical_bytes codec tx) malformed_payload) then_by λ message _.
          past_guard _ _ λ _. returns (address-IsSigner codec key)
