-- ===== src/State/Keys.antt =====
-- `uint64Key` and `getUint64`: a number as eight bytes, the highest first.
use l1_modular_blockchain.Common.{
  ℕ, zero, suc, ◌+◌, ◌*◌, ◌/◌, ◌%◌, ◌^◌, ◌<◌, ◌≡◌, List, [], ◌∷◌, length, ◌==◌, if◌then◌else◌,
  arith,
}

-- The loop writes `count` bytes from the last to the first; a byte is the number modulo 256.
unfoldable pub key_bytes : ℕ → ℕ → List ℕ → List ℕ
key_bytes zero n after = after
key_bytes (suc count) n after = key_bytes count (n / 256) (n % 256 ∷ after)

unfoldable pub uint64_key : ℕ → List ℕ
unfolding key_bytes
uint64_key n = key_bytes 8 n []

-- The loop of `getUint64`: at uint64, `(n << 8) | b` of a byte `b`.
unfoldable pub read_bytes : ℕ → List ℕ → ℕ
read_bytes n [] = n
read_bytes n (b ∷ bs) = read_bytes ((n * 256) % 2 ^ 64 + b) bs

unfoldable pub get_uint64 : List ℕ → ℕ
unfolding read_bytes
get_uint64 bytes = if length bytes == 8 then read_bytes 0 bytes else 0

-- A number that fits 64 bits is read back by getUint64 from the eight bytes that uint64Key makes
-- of it.
pub get_uint64-uint64_key : (n : ℕ) → n < 2 ^ 64 → get_uint64 (uint64_key n) ≡ n
unfolding get_uint64 uint64_key read_bytes key_bytes
get_uint64-uint64_key n h = omega arith
