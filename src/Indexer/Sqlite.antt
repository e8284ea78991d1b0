-- ===== src/Indexer/Sqlite.antt =====
-- What indexer/internal/store relies on of SQLite and its driver: tables whose key is an integer.
use l1_modular_blockchain.Common.{ℕ, ◌≡◌, ◌≢◌, ◌<◌, ◌^◌, Bool, true, Option, some, []}
use l1_modular_blockchain.Bolt.{Entries, insert, lookup, AscendingFrom}

pub record Sqlite : Type 1 where
  pub Rows : Type 0 → Type 0
  pub no_rows : {V : Type 0} → Rows V
  -- `WHERE id = ?`, a row that is inserted or updated, and all rows by `ORDER BY id`
  pub row : {V : Type 0} → Rows V → ℕ → Option V
  pub save : {V : Type 0} → Rows V → ℕ → V → Rows V
  pub scan : {V : Type 0} → Rows V → Entries V
  pub row-save_self : {V : Type 0} (t : Rows V) (id : ℕ) (v : V) → row (save t id v) id ≡ some v
  pub row-save_ne :
      {V : Type 0} (t : Rows V) (j id : ℕ) (v : V) → j ≢ id → row (save t id v) j ≡ row t j
  pub scan-no_rows : {V : Type 0} → scan (no_rows {V = V}) ≡ []
  pub scan-save :
      {V : Type 0} (t : Rows V) (id : ℕ) (v : V) → scan (save t id v) ≡ insert id v (scan t)
  pub scan-Ascending : {V : Type 0} (t : Rows V) → AscendingFrom 0 (scan t)
  pub row-scan : {V : Type 0} (t : Rows V) (id : ℕ) → row t id ≡ lookup id (scan t)
  -- whether the driver takes a uint64 as an argument: it may refuse those of 64 bits
  pub binds : ℕ → Bool
  pub binds_lem : (n : ℕ) → n < 2 ^ 63 → binds n ≡ true
