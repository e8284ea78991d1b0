-- ===== src/Bolt/Cursor.antt =====
-- What a cursor walks: pairs of a key and a value, the keys ascending.
use l1_modular_blockchain.Common.{
  ℕ, ◌+◌, ◌<◌, ◌≤◌, ◌≡◌, refl, ◌≢◌, Option, none, some, List, [], ◌∷◌, arith, ltb, ◌==◌,
  if◌then◌else◌, sum_by, All, All-map, All-map₂,
}

abbrev pub Entries : Type 0 → Type 0
Entries V = List (ℕ × V)

module _ {V : Type 0} where
  -- The search stops at a larger key.
  abbrev pub lookup : ℕ → Entries V → Option V
  lookup k [] = none
  lookup k ((j, v) ∷ es) = if ltb k j then none else if k == j then some v else lookup k es

  abbrev pub insert : ℕ → V → Entries V → Entries V
  insert k v [] = (k, v) ∷ []
  insert k v ((j, w) ∷ es) =
      if ltb k j
      then (k, v) ∷ (j, w) ∷ es
      else if k == j
      then (k, v) ∷ es
      else (j, w) ∷ insert k v es

  -- All keys are at least the bound, and each is smaller than the next.
  abbrev pub AscendingFrom : ℕ → Entries V → Type 0
  AscendingFrom n [] = Unit
  AscendingFrom n ((j, w) ∷ es) = (n ≤ j) × AscendingFrom (j + 1) es

  pub AscendingFrom-le :
      (m n : ℕ) (es : Entries V) → m ≤ n → AscendingFrom n es → AscendingFrom m es
  AscendingFrom-le m n [] h a = tt
  AscendingFrom-le m n (e ∷ es) h a = (omega arith, a.1)

  pub insert-AscendingFrom :
      (n k : ℕ) (v : V) (es : Entries V)
      → n ≤ k
      → AscendingFrom n es
      → AscendingFrom n (insert k v es)
  insert-AscendingFrom n k v [] h a = (h, tt)
  insert-AscendingFrom n k v ((j, w) ∷ es) h a =
      ground (arith, insert-AscendingFrom (j + 1) k v es, AscendingFrom-le (k + 1) (j + 1) es)

  pub lookup-insert_self : (k : ℕ) (v : V) (es : Entries V) → lookup k (insert k v es) ≡ some v
  lookup-insert_self k v [] = ground arith
  lookup-insert_self k v (e ∷ es) = ground (arith, lookup-insert_self k v es)

  pub lookup-insert_ne :
      (j k : ℕ) (v : V) (es : Entries V) → j ≢ k → lookup j (insert k v es) ≡ lookup j es
  lookup-insert_ne j k v [] h = ground arith
  lookup-insert_ne j k v (e ∷ es) h = ground (arith, lookup-insert_ne j k v es h)

  -- The values of a table, measured and summed.
  abbrev pub weigh : (V → ℕ) → Entries V → ℕ
  weigh f = sum_by (λ e. f e.1)

  pub weigh-insert :
      (f : V → ℕ) (k : ℕ) (u v : V) (es : Entries V)
      → lookup k es ≡ some u
      → weigh f (insert k v es) + f u ≡ weigh f es + f v
  weigh-insert f k u v [] h = ground arith
  weigh-insert f k u v (e ∷ es) h = ground (arith, weigh-insert f k u v es)

  pub weigh-insert_new :
      (f : V → ℕ) (k : ℕ) (v : V) (es : Entries V)
      → lookup k es ≡ none
      → weigh f (insert k v es) ≡ weigh f es + f v
  weigh-insert_new f k v [] h = omega arith
  weigh-insert_new f k v (e ∷ es) h = ground (arith, weigh-insert_new f k v es)

  -- A property of all pairs, under an update and at a key that is found.
  pub All-insert {κ} :
      (P : ℕ × V → Type κ) (k : ℕ) (v : V) (es : Entries V)
      → P (k, v)
      → All P es
      → All P (insert k v es)
  All-insert P k v [] p h = (p, tt)
  All-insert P k v (e ∷ es) p h = ground (arith, All-insert P k v es p)

  pub All-lookup {κ} :
      (P : ℕ × V → Type κ) (k : ℕ) (v : V) (es : Entries V)
      → All P es
      → lookup k es ≡ some v
      → P (k, v)
  All-lookup P k v [] h e = cc
  All-lookup P k v (x ∷ es) h e = ground (arith, All-lookup P k v es)

  pub lookup_fresh : (n : ℕ) (es : Entries V) → All (λ e. e.0 < n) es → lookup n es ≡ none
  lookup_fresh n [] h = refl
  lookup_fresh n (e ∷ es) h = ground (arith, lookup_fresh n es)

  Ascending-All : (n : ℕ) (es : Entries V) → AscendingFrom n es → All (λ e. n ≤ e.0) es
  Ascending-All n [] a = tt
  Ascending-All n (e ∷ es) a =
      (a.0, All-map _ _ es (λ x h. omega arith) (Ascending-All (e.0 + 1) es a.1))

  -- Each pair that the cursor walks is found under its key.
  pub lookup-All :
      (n : ℕ) (es : Entries V) → AscendingFrom n es → All (λ e. lookup e.0 es ≡ some e.1) es
  lookup-All n [] a = tt
  lookup-All n (e ∷ es) a = (
    ground arith,
    All-map₂ _ _ _ es (λ x h k. ground arith) (Ascending-All (e.0 + 1) es a.1)
        (lookup-All (e.0 + 1) es a.1),
  )
