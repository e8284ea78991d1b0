-- ===== src/Bolt/Interface.antt =====
-- The interface: buckets whose keys are eight-byte numbers (`uint64Key`), and buckets whose keys are
-- texts, which the chain never walks.
use Prim.Native.String.{len}
use l1_modular_blockchain.Common.{
  ℕ, String, ◌≡◌, ◌≢◌, ◌≤◌, ◌<◌, Bool, true, Option, none, some, List, [], ◌∷◌,
}
use l1_modular_blockchain.Bolt.Cursor.{Entries, lookup, insert, AscendingFrom}
use mathlib.Core.List.{Perm}

pub record Bolt : Type 1 where
  pub Table : Type 0 → Type 0
  pub no_rows : {V : Type 0} → Table V
  pub get : {V : Type 0} → Table V → ℕ → Option V
  pub put : {V : Type 0} → Table V → ℕ → V → Table V
  pub cursor : {V : Type 0} → Table V → Entries V
  pub cursor-no_rows : {V : Type 0} → cursor (no_rows {V = V}) ≡ []
  pub cursor-put :
      {V : Type 0} (t : Table V) (k : ℕ) (v : V) → cursor (put t k v) ≡ insert k v (cursor t)
  pub cursor-Ascending : {V : Type 0} (t : Table V) → AscendingFrom 0 (cursor t)
  pub get_lem : {V : Type 0} (t : Table V) (k : ℕ) → get t k ≡ lookup k (cursor t)
  pub Dict : Type 0 → Type 0
  pub no_pairs : {V : Type 0} → Dict V
  pub find : {V : Type 0} → Dict V → String → Option V
  pub store : {V : Type 0} → Dict V → String → V → Dict V
  -- whether `Put` takes the key: it refuses a blank one and one of more than 32,768 bytes
  pub accepts : String → Bool
  pub accepts_lem : (k : String) → 0 < len k → len k ≤ 32768 → accepts k ≡ true
  -- the values of all pairs, in the order of the keys
  pub values : {V : Type 0} → Dict V → List V
  pub values-no_pairs : {V : Type 0} → values (no_pairs {V = V}) ≡ []
  pub find-no_pairs : {V : Type 0} (k : String) → find (no_pairs {V = V}) k ≡ none
  pub find-store_self :
      {V : Type 0} (d : Dict V) (k : String) (v : V) → find (store d k v) k ≡ some v
  pub find-store_ne :
      {V : Type 0} (d : Dict V) (j k : String) (v : V) → j ≢ k → find (store d k v) j ≡ find d j
  pub values-store_new :
      {V : Type 0} (d : Dict V) (k : String) (v : V)
      → find d k ≡ none
      → Perm (values (store d k v)) (v ∷ values d)
  pub values-store_old :
      {V : Type 0} (d : Dict V) (k : String) (u v : V)
      → find d k ≡ some u
      → Perm (u ∷ values (store d k v)) (v ∷ values d)
