-- ===== src/Bolt/Listing.antt =====
-- About the rows that a cursor walks and that pass a test: they are those that are stored.
use l1_modular_blockchain.Common.{
  ℕ, ◌≡◌, sym, ap, ◌∙◌, Bool, true, some, List, [], ◌∷◌, arith, map, select, ltb, ◌==◌, Bool-cases,
  inl, inr, All, subst,
}
use mathlib.Core.List.{Memᴰ}
use l1_modular_blockchain.Bolt.Cursor.{Entries, lookup}

-- What holds of all holds of one.
pub All-Memᴰ {ℓ κ} :
    {A : Type ℓ} (P : A → Type κ) (x : A) (xs : List A) → All P xs → Memᴰ x xs → P x
All-Memᴰ P x [] h m = elim m [ ]
All-Memᴰ P x (y ∷ ys) h (Memᴰ.head e) = subst P (sym e) h.0
All-Memᴰ P x (y ∷ ys) h (Memᴰ.tail m) = All-Memᴰ P x ys h.1 m

module _ {V : Type 0} where
  lookup-Memᴰ : (k : ℕ) (v : V) (es : Entries V) → lookup k es ≡ some v → Memᴰ v (map (λ e. e.1) es)
  lookup-Memᴰ k v [] h = cc
  lookup-Memᴰ k v ((j, w) ∷ es) h = elim (Bool-cases (ltb k j)) [
    | inl smaller ↦ absurd (ground arith)
    | inr _ ↦ elim (Bool-cases (k == j)) [
      | inl same ↦ Memᴰ.head (ground arith)
      | inr other ↦ Memᴰ.tail (lookup-Memᴰ k v es (ground arith))
    ]
  ]

  select-Memᴰ : (p : V → Bool) (v : V) (vs : List V) → p v ≡ true → Memᴰ v vs → Memᴰ v (select p vs)
  select-Memᴰ p v [] h m = elim m [ ]
  select-Memᴰ p v (x ∷ vs) h (Memᴰ.head e) =
      let hit : p x ≡ true = ap p (sym e) ∙ h in rw hit (Memᴰ.head e)
  select-Memᴰ p v (x ∷ vs) h (Memᴰ.tail m) = elim (Bool-cases (p x)) [
    | inl hit ↦ rw hit (Memᴰ.tail (select-Memᴰ p v vs h m))
    | inr miss ↦ rw miss (select-Memᴰ p v vs h m)
  ]

  -- What is stored and passes the test is listed.
  pub listed :
      (p : V → Bool) (k : ℕ) (v : V) (es : Entries V)
      → lookup k es ≡ some v
      → p v ≡ true
      → Memᴰ v (select p (map (λ e. e.1) es))
  listed p k v es h t = select-Memᴰ p v _ t (lookup-Memᴰ k v es h)
