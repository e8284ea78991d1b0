-- ===== src/Bolt/Tables.antt =====
-- The laws of a table's cursor, carried over to `get` and `put`.
use l1_modular_blockchain.Common.{ℕ, ◌+◌, ◌<◌, ◌≡◌, ◌≢◌, sym, ◌∙◌, none, some, All, All-map}
use l1_modular_blockchain.Bolt.Cursor.{
  weigh, weigh-insert, weigh-insert_new, All-insert, All-lookup, lookup-insert_self,
  lookup-insert_ne, lookup_fresh, lookup-All,
}
use l1_modular_blockchain.Bolt.Interface.{Bolt}

module _ ⦃bolt : Bolt⦄ where
  open bolt use {Table, get, put, cursor, cursor-put, cursor-Ascending, get_lem}

  -- A property of all rows, read at a key and kept by a write.
  pub All-get {κ} :
      {V : Type 0} (P : ℕ × V → Type κ) (t : Table V) (k : ℕ) (v : V)
      → All P (cursor t)
      → get t k ≡ some v
      → P (k, v)
  All-get P t k v h e = All-lookup P k v (cursor t) h (sym (get_lem t k) ∙ e)

  pub All-put {κ} :
      {V : Type 0} (P : ℕ × V → Type κ) (t : Table V) (k : ℕ) (v : V)
      → P (k, v)
      → All P (cursor t)
      → All P (cursor (put t k v))
  All-put P t k v p h = rw (cursor-put t k v) (All-insert P k v (cursor t) p h)

  pub weigh-put :
      {V : Type 0} (f : V → ℕ) (t : Table V) (k : ℕ) (u v : V)
      → get t k ≡ some u
      → weigh f (cursor (put t k v)) + f u ≡ weigh f (cursor t) + f v
  weigh-put f t k u v e =
      rw (cursor-put t k v) (weigh-insert f k u v (cursor t) (sym (get_lem t k) ∙ e))

  pub weigh-put_new :
      {V : Type 0} (f : V → ℕ) (t : Table V) (k : ℕ) (v : V)
      → get t k ≡ none
      → weigh f (cursor (put t k v)) ≡ weigh f (cursor t) + f v
  weigh-put_new f t k v e =
      rw (cursor-put t k v) (weigh-insert_new f k v (cursor t) (sym (get_lem t k) ∙ e))

  pub get-put_self : {V : Type 0} (t : Table V) (k : ℕ) (v : V) → get (put t k v) k ≡ some v
  get-put_self t k v =
      rw (get_lem (put t k v) k, cursor-put t k v) (lookup-insert_self k v (cursor t))

  pub get-put_ne :
      {V : Type 0} (t : Table V) (j k : ℕ) (v : V) → j ≢ k → get (put t k v) j ≡ get t j
  get-put_ne t j k v h =
      rw (get_lem (put t k v) j, cursor-put t k v, get_lem t j)
        (lookup-insert_ne j k v (cursor t) h)

  pub get_fresh :
      {V : Type 0} (t : Table V) (n : ℕ) → All (λ e. e.0 < n) (cursor t) → get t n ≡ none
  get_fresh t n h = get_lem t n ∙ lookup_fresh n (cursor t) h

  pub get-All : {V : Type 0} (t : Table V) → All (λ e. get t e.0 ≡ some e.1) (cursor t)
  get-All t =
      All-map _ _ (cursor t) (λ e h. get_lem t e.0 ∙ h)
        (lookup-All 0 (cursor t) (cursor-Ascending t))
