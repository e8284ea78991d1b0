-- ===== src/Api/Boot.antt =====
-- About the first boot: `EnsureDevKeyring` of chain/internal/state/state.go.
use l1_modular_blockchain.Common.{
  ℕ, ◌+◌, ◌*◌, ◌^◌, ◌<◌, ◌≡◌, ◌≢◌, ◌⊎◌, inl, inr, refl, sym, ap, ◌∙◌, subst, String, Bool, true,
  false, Option, none, some, List, [], ◌∷◌, arith, length, All, map, str_eq, str_eq→eq, str_eq_refl,
  Bool-cases, Option-cases, if◌then◌else◌,
}
use l1_modular_blockchain.Types.{Error, key_not_generated, keyring_not_written}
use l1_modular_blockchain.Outcome.{
  Ends, returns, fails, Never, ◌then_by◌, Ends-both, weaken, widen, refuse_if, or_fail,
}
use l1_modular_blockchain.Bolt.{Bolt}
use l1_modular_blockchain.State.{World, Account}
use l1_modular_blockchain.State.Bank.{balance}
use l1_modular_blockchain.State.Bank.Funds.{Holds, Holds-floating, credit-Holds, balance-le-supply}
use l1_modular_blockchain.Tx.Wire.{Codec}
use l1_modular_blockchain.Solvency.Stake.{Inv, locked}
use l1_modular_blockchain.Solvency.Signers.{address-IsSigner}
use l1_modular_blockchain.Solvency.Transfers.{credit-balance}
use l1_modular_blockchain.Api.Keyring.{
  KeyringEntry, new_key, make_keys, key_names, initial_balance, credit_keys, ensure_dev_keyring,
}

-- What the keys of a list bring to an address.
abbrev pub granted : String → List KeyringEntry → ℕ
granted a [] = 0
granted a (k ∷ ks) = (if str_eq k.address a then initial_balance else 0) + granted a ks

module _ (codec : Codec) (generate : String → Option (List ℕ × List ℕ)) where
  -- The key is the one that was generated for its name.
  abbrev pub IsGenerated : KeyringEntry → Type 0
  IsGenerated k =
      (pair : List ℕ × List ℕ) × (generate k.name ≡ some pair)
      × (k ≡ new_key codec k.name pair.0 pair.1)

  -- The keys of some names, as they were generated.
  pub record AreKeysOf (names : List String) (keys : List KeyringEntry) : Type 0 where
    pub named : map (λ k. k.name) keys ≡ names
    pub generated : All IsGenerated keys

  -- There is a name without a key pair.
  abbrev pub Ungenerated : Error → Type 0
  Ungenerated e = (e ≡ key_not_generated) × ((name : String) × (generate name ≡ none))

  make_keys-AreKeysOf :
      (names : List String) → Ends Ungenerated (AreKeysOf names) (make_keys codec generate names)
  unfolding make_keys or_fail
  make_keys-AreKeysOf [] = returns (record { named = refl; generated = tt })
  make_keys-AreKeysOf (name ∷ names) = elim (Option-cases (generate name)) [
    | inl missing ↦ rw missing (fails (refl, (name, missing)))
    | inr (pair, made) ↦ rw made (
        make_keys-AreKeysOf names then_by λ keys h. returns (record {
          named = ap (λ ns. name ∷ ns) h.named;
          generated = ((pair, made, refl), h.generated);
        }))
  ]

module _ ⦃bolt : Bolt⦄ where
  open bolt use {Dict, accepts}

  abbrev TakesKey : KeyringEntry → Type 0
  TakesKey k = accepts k.address ≡ true

  generated-TakesKey :
      (codec : Codec) (generate : String → Option (List ℕ × List ℕ)) (keys : List KeyringEntry)
      → All (IsGenerated codec generate) keys
      → All TakesKey keys
  generated-TakesKey codec generate [] h = tt
  generated-TakesKey codec generate (k ∷ ks) (h, t) = (
    subst TakesKey (sym h.2) (address-IsSigner codec h.0.0).storable,
    generated-TakesKey codec generate ks t,
  )

  -- What crediting the keys does to the balances.
  abbrev Credited : List KeyringEntry → Dict Account → Dict Account → Type 0
  Credited ks accs accs' = (a : String) → balance accs' a ≡ balance accs a + granted a ks

  credit_keys-Holds :
      (t e : ℕ) (ks : List KeyringEntry) (accs : Dict Account)
      → All TakesKey ks
      → Holds t (initial_balance * length ks) e accs
      → Ends Never (λ accs'. Holds t 0 e accs' × Credited ks accs accs') (credit_keys accs ks)
  unfolding credit_keys
  credit_keys-Holds t e [] accs a h =
      returns (Holds-floating 0 (omega arith) h, λ addr. omega arith)
  credit_keys-Holds t e (k ∷ ks) accs a h =
      Ends-both
        (credit-Holds t (initial_balance * length ks) e initial_balance accs k.address a.0
          (Holds-floating _ (omega arith) h))
        (credit-balance accs k.address initial_balance
          (omega (arith, balance-le-supply accs k.address, h.balanced, h.bounded)))
      then_by λ next n.
          weaken
            (λ last l. (
              l.0,
              λ addr. elim (Bool-cases (str_eq k.address addr)) [
                | inl same ↦
                    let here : balance next addr ≡ balance accs addr + initial_balance =
                      subst (λ x. balance next x ≡ balance accs x + initial_balance)
                        (str_eq→eq k.address addr same) n.1.0 in
                    rw same (omega (arith, l.1 addr, here))
                | inr other ↦
                    let apart : addr ≢ k.address = λ e.
                      let same : str_eq k.address addr ≡ true =
                        subst (λ x. str_eq k.address x ≡ true) (sym e) (str_eq_refl k.address) in
                      cc (same, other) in
                    rw other (omega (arith, l.1 addr, n.1.1 addr apart))
              ],
            ))
            (credit_keys-Holds t e ks next a.1 n.0)

  -- The state after the first boot, and the key file that it wrote.
  pub record Booted (total : ℕ) (codec : Codec) (generate : String → Option (List ℕ × List ℕ))
      (w : World) (x : World × Option (List KeyringEntry)) : Type 0 where
    pub keys : List KeyringEntry
    pub file : x.1 ≡ some keys
    pub made : AreKeysOf codec generate key_names keys
    pub inv : Inv (total + 4 * initial_balance) x.0
    pub credited : Credited keys w.accounts x.0.accounts

  -- Why the first boot fails: a key pair could not be generated, or the file not be written.
  abbrev pub BootFailure : (String → Option (List ℕ × List ℕ)) → Bool → Error → Type 0
  BootFailure generate written e =
      ((e ≡ key_not_generated) × ((name : String) × (generate name ≡ none)))
      ⊎ ((e ≡ keyring_not_written) × (written ≡ false))

  length-map_name : (keys : List KeyringEntry) → length (map (λ k. k.name) keys) ≡ length keys
  length-map_name [] = refl
  length-map_name (k ∷ ks) = omega (arith, length-map_name ks)

  -- On a state that satisfies the invariant and without a key file, EnsureDevKeyring fails only
  -- because a key pair could not be generated or the file not be written. Otherwise it writes one
  -- key for each of the four names, made of the pair that was generated for the name, each key
  -- brings its address the initial balance and no other balance changes, and the invariant holds
  -- with a supply that is larger by four initial balances. The new supply is assumed to fit 64
  -- bits.
  pub ensure_dev_keyring-Booted :
      {total : ℕ} (codec : Codec) (generate : String → Option (List ℕ × List ℕ)) (written : Bool)
      (w : World)
      → Inv total w
      → total + 4 * initial_balance < 2 ^ 64
      → Ends
          (BootFailure generate written)
          (Booted total codec generate w)
          (ensure_dev_keyring codec false generate written w)
  unfolding ensure_dev_keyring refuse_if
  ensure_dev_keyring-Booted {total} codec generate written w v fits =
      widen (λ e why. inl why) (make_keys-AreKeysOf codec generate key_names) then_by λ keys made.
      elim (Bool-cases written) [
        | inr unwritten ↦ rw unwritten (fails (inr (refl, refl)))
        | inl there ↦
            let four : length keys ≡ 4 = sym (length-map_name keys) ∙ ap length made.named in
            rw there (
              widen (λ e never. absurd never)
                (credit_keys-Holds (total + 4 * initial_balance) (locked w) keys w.accounts
                  (generated-TakesKey codec generate keys made.generated)
                  (record {
                    balanced = omega (arith, v.funded.balanced, four);
                    bounded = fits;
                    reserved = v.funded.reserved;
                  }))
              then_by λ accs h. returns (record {
                keys = keys;
                file = refl;
                made = made;
                inv = record {
                  funded = h.0;
                  sound = v.sound;
                  owned = v.owned;
                  fresh_requests = v.fresh_requests;
                  fresh_services = v.fresh_services;
                };
                credited = h.1;
              }))
      ]
