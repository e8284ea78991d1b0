-- ===== src/Api/Keyring.antt =====
-- The development keyring: `EnsureDevKeyring` and `AccountByName` of chain/internal/state/state.go,
-- and `loadKey` of chain/internal/api/demo.go. crypto/ed25519's signing is a record.
use l1_modular_blockchain.Common.{
  ℕ, ◌≡◌, String, Bool, true, not, Option, none, some, List, [], ◌∷◌, if◌then◌else◌, str_eq, length,
}
use l1_modular_blockchain.Types.{key_not_found, key_not_generated, keyring_not_written}
use l1_modular_blockchain.Outcome.{Outcome, ok, ◌>>=◌, ◌>>◌, or_fail, refuse_if}
use l1_modular_blockchain.Bolt.{Bolt}
use l1_modular_blockchain.State.{World, Account}
use l1_modular_blockchain.State.Bank.{credit}
use l1_modular_blockchain.Tx.Wire.{Codec, address_from_pub_key, encode_hex}
use l1_modular_blockchain.Tx.Hex.{Bytes}

-- `ed25519.Sign`, which panics at a private key of a wrong length (`none`), and the pairs that
-- `ed25519.GenerateKey` makes.
pub record Signing (codec : Codec) : Type 1 where
  pub sign : List ℕ → List ℕ → Option (List ℕ)
  pub IsPair : List ℕ → List ℕ → Type 0
  pub pub_key-length : (pub_key priv : List ℕ) → IsPair pub_key priv → length pub_key ≡ 32
  pub pub_key-Bytes : (pub_key priv : List ℕ) → IsPair pub_key priv → Bytes pub_key
  pub priv-Bytes : (pub_key priv : List ℕ) → IsPair pub_key priv → Bytes priv
  pub sign_lem :
      (pub_key priv message : List ℕ)
      → IsPair pub_key priv
      → (sig : List ℕ) × (sign priv message ≡ some sig)
        × (length sig ≡ 64)
        × Bytes sig
        × (codec.verify pub_key message sig ≡ true)

pub record KeyringEntry : Type 0 where
  pub name : String
  pub address : String
  pub pub_key_hex : String
  pub priv_key_hex : String

unfoldable pub find_key : String → List KeyringEntry → Option KeyringEntry
find_key name [] = none
find_key name (k ∷ ks) = if str_eq k.name name then some k else find_key name ks

-- A key file that is missing or is not JSON is `none`.
unfoldable pub load_key : Option (List KeyringEntry) → String → Outcome KeyringEntry
load_key keyring name = do
  keys ← or_fail keyring key_not_found
  or_fail (find_key name keys) key_not_found

unfoldable pub account_by_name : Option (List KeyringEntry) → String → Outcome String
account_by_name keyring name = do
  keys ← or_fail keyring key_not_found
  key ← or_fail (find_key name keys) key_not_found
  ok key.address

abbrev pub new_key : Codec → String → List ℕ → List ℕ → KeyringEntry
new_key codec name pub_key priv = record {
  name = name;
  address = address_from_pub_key codec pub_key;
  pub_key_hex = encode_hex pub_key;
  priv_key_hex = encode_hex priv;
}

-- A fresh key pair for each name: `generate` is what `ed25519.GenerateKey` answers for it, which may
-- be an error.
unfoldable pub make_keys :
    Codec → (String → Option (List ℕ × List ℕ)) → List String → Outcome (List KeyringEntry)
make_keys codec generate [] = ok []
make_keys codec generate (name ∷ names) = do
  (pub_key, priv) ← or_fail (generate name) key_not_generated
  keys ← make_keys codec generate names
  ok (new_key codec name pub_key priv ∷ keys)

abbrev pub key_names : List String
key_names = "alice" ∷ "bob" ∷ "harness" ∷ "harness-b" ∷ []

abbrev pub initial_balance : ℕ
initial_balance = 1000000000

module _ ⦃bolt : Bolt⦄ where
  open bolt use {Dict}

  unfoldable pub credit_keys : Dict Account → List KeyringEntry → Outcome (Dict Account)
  credit_keys accs [] = ok accs
  credit_keys accs (k ∷ ks) = credit accs k.address initial_balance >>= λ next. credit_keys next ks

  -- An old key file stays, and no account is credited. `written` tells whether `os.WriteFile`
  -- succeeds; the second result is what it has written.
  unfoldable pub ensure_dev_keyring :
      Codec
      → Bool
      → (String → Option (List ℕ × List ℕ))
      → Bool
      → World
      → Outcome (World × Option (List KeyringEntry))
  ensure_dev_keyring codec exists generate written w = if exists then ok (w, none) else do
    keys ← make_keys codec generate key_names
    refuse_if (not written) keyring_not_written
    accounts ← credit_keys w.accounts keys
    ok (record w { accounts = accounts }, some keys)
