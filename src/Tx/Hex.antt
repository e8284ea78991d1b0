-- ===== src/Tx/Hex.antt =====
-- About encoding/hex, as chain/internal/types and the clients use it.
use Prim.Native.Char.{code}
use l1_modular_blockchain.Common.{
  ℕ, zero, suc, ◌+◌, ◌*◌, ◌/◌, ◌%◌, ◌<◌, ◌≡◌, refl, Bool, true, false, ◌&&◌, Option, none, some,
  List, [], ◌∷◌, arith, All, ◌==◌, Bool-cases, inl, inr,
}
use l1_modular_blockchain.Tx.Wire.{hex_value, hex_digit, decode_hex, encode_hex}

abbrev pub Bytes : List ℕ → Type 0
Bytes = All λ b. b < 256

-- A test of all numbers below a bound.
abbrev all_below : (ℕ → Bool) → ℕ → Bool
all_below p zero = true
all_below p (suc k) = p k && all_below p k

all_below→test : (p : ℕ → Bool) (k n : ℕ) → all_below p k ≡ true → n < k → p n ≡ true
all_below→test p zero n h lt = absurd (omega arith)
all_below→test p (suc k) n h lt = elim (Bool-cases (n == k)) [
  | inl last ↦ let e : n ≡ k = ground arith in rw e (ground arith)
  | inr before ↦ all_below→test p k n (ground arith) (ground arith)
]

abbrev is_read : Option ℕ → ℕ → Bool
is_read none n = false
is_read (some m) n = m == n

is_read→eq : (o : Option ℕ) (n : ℕ) → is_read o n ≡ true → o ≡ some n
is_read→eq none n h = cc
is_read→eq (some m) n h = ground arith

all_digits : all_below (λ n. is_read (hex_value (code (hex_digit n))) n) 16 ≡ true
unfolding hex_value hex_digit
all_digits = refl

pub hex_value-hex_digit : (n : ℕ) → n < 16 → hex_value (code (hex_digit n)) ≡ some n
hex_value-hex_digit n h =
    is_read→eq (hex_value (code (hex_digit n))) n
      (all_below→test (λ n. is_read (hex_value (code (hex_digit n))) n) 16 n all_digits h)

-- Bytes are read back from their hexadecimal digits.
pub decode_hex-encode_hex : (bs : List ℕ) → Bytes bs → decode_hex (encode_hex bs) ≡ some bs
unfolding decode_hex encode_hex
decode_hex-encode_hex [] h = refl
decode_hex-encode_hex (b ∷ bs) h =
    let joined : 16 * (b / 16) + b % 16 ≡ b = omega arith in
    rw
      (
        hex_value-hex_digit (b / 16) (omega (arith, h.0)),
        hex_value-hex_digit (b % 16) (omega arith),
        decode_hex-encode_hex bs h.1,
        joined,
      )
      refl
