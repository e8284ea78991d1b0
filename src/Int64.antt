-- ===== src/Int64.antt =====
-- Go's int64: integers, the conversions from and to uint64, and addition and subtraction that wrap.
-- Block heights, windows and margins in chain/internal/types/types.go are of this type.
use l1_modular_blockchain.Common.{
  ℕ, suc, ◌+◌, ◌-◌, ◌%◌, ◌^◌, ◌≤◌, ◌<◌, ◌≡◌, Bool, arith, ltb, leb, if◌then◌else◌,
}

-- `negsuc n` is -(n + 1).
pub data ℤ : Type 0 where
  pos : ℕ → ℤ
  negsuc : ℕ → ℤ

abbrev pub pos_part : ℤ → ℕ
pos_part (pos n) = n
pos_part (negsuc n) = 0

abbrev pub neg_part : ℤ → ℕ
neg_part (pos n) = 0
neg_part (negsuc n) = suc n

abbrev pub sub_ℕ : ℕ → ℕ → ℤ
sub_ℕ a b = if leb b a then pos (a - b) else negsuc (b - a - 1)

infixl 65 ◌+ℤ◌ ◌-ℤ◌
infix 50 ◌≤ℤ◌
unfoldable pub ◌+ℤ◌ : ℤ → ℤ → ℤ
a +ℤ b = sub_ℕ (pos_part a + pos_part b) (neg_part a + neg_part b)

unfoldable pub ◌-ℤ◌ : ℤ → ℤ → ℤ
a -ℤ b = sub_ℕ (pos_part a + neg_part b) (neg_part a + pos_part b)

abbrev pub ◌≤ℤ◌ : ℤ → ℤ → Type 0
a ≤ℤ b = pos_part a + neg_part b ≤ pos_part b + neg_part a

abbrev pub ltb_ℤ : ℤ → ℤ → Bool
ltb_ℤ a b = ltb (pos_part a + neg_part b) (pos_part b + neg_part a)

abbrev pub leb_ℤ : ℤ → ℤ → Bool
leb_ℤ a b = leb (pos_part a + neg_part b) (pos_part b + neg_part a)

-- `int64(n)` of a uint64, and `uint64(z)` of an int64.
unfoldable pub to_int64 : ℕ → ℤ
to_int64 n = if ltb n (2 ^ 63) then pos n else negsuc (2 ^ 64 - 1 - n)

unfoldable pub to_uint64 : ℤ → ℕ
to_uint64 (pos n) = n % 2 ^ 64
to_uint64 (negsuc n) = 2 ^ 64 - 1 - n % 2 ^ 64

-- `a + b` and `a - b` at type int64, which wrap.
unfoldable pub add_int64 : ℤ → ℤ → ℤ
unfolding ◌+ℤ◌ to_int64 to_uint64
add_int64 a b = to_int64 (to_uint64 (a +ℤ b))

unfoldable pub sub_int64 : ℤ → ℤ → ℤ
unfolding ◌-ℤ◌ to_int64 to_uint64
sub_int64 a b = to_int64 (to_uint64 (a -ℤ b))

-- Below 2^63 nothing wraps.
pub add_int64-pos : (m n : ℕ) → m + n < 2 ^ 63 → add_int64 (pos m) (pos n) ≡ pos (m + n)
unfolding add_int64
add_int64-pos m n h = ground arith

pub to_uint64-to_int64 : (n : ℕ) → n < 2 ^ 64 → to_uint64 (to_int64 n) ≡ n
unfolding to_int64 to_uint64
to_uint64-to_int64 n h = ground arith
