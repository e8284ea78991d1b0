-- ===== src/Types/Coins.antt =====
-- `Coin` of chain/internal/types/types.go.
use l1_modular_blockchain.Common.{ℕ, String, Bool, ◌&&◌, not, ltb, str_eq}

pub record Coin : Type 0 where
  pub denom : String
  pub amount : ℕ

-- `types.Coin{}`
abbrev pub no_coin : Coin
no_coin = record { denom = ""; amount = 0 }

abbrev pub is_positive : Coin → Bool
is_positive c = ltb 0 c.amount

abbrev pub is_valid : Coin → Bool
is_valid c = not (str_eq c.denom "")

-- Of two denominations neither is less.
unfoldable pub is_lt : Coin → Coin → Bool
is_lt c other = str_eq c.denom other.denom && ltb c.amount other.amount
