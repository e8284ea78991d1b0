-- ===== src/Api/Signed.antt =====
-- About the transactions that chain/internal/api/demo.go signs.
use l1_modular_blockchain.Common.{
  ℕ, ◌<◌, ◌≡◌, refl, String, true, false, Option, some, List, [], ◌∷◌, arith, length, str_eq, ◌==◌,
  Bool-cases, inl, inr, str_eq→eq,
}
use l1_modular_blockchain.Int64.{to_int64}
use l1_modular_blockchain.Types.{SignedTx}
use l1_modular_blockchain.Outcome.{Outcome, ok, ◌>>=◌, or_fail, refuse_if}
use l1_modular_blockchain.Bolt.{Bolt}
use l1_modular_blockchain.State.{World}
use l1_modular_blockchain.Tx.Wire.{
  Codec, TxType, tx_type, encode_hex, canonical_bytes, validate_basic, authenticate,
  address_from_pub_key,
}
use l1_modular_blockchain.Tx.Hex.{decode_hex-encode_hex}
use l1_modular_blockchain.Tx.Submit.{TxReceipt, next_nonce, dispatch, inc_nonce, submit_tx}
use l1_modular_blockchain.Api.Keyring.{Signing, KeyringEntry, new_key, load_key}
use l1_modular_blockchain.Api.Sign.{unsigned_tx, sign_tx, sign_with, sign_and_submit}

encode_hex-nonempty : (bs : List ℕ) → 0 < length bs → str_eq (encode_hex bs) "" ≡ false
unfolding encode_hex
encode_hex-nonempty [] h = absurd (omega arith)
encode_hex-nonempty (b ∷ bs) h = elim (Bool-cases (str_eq (encode_hex (b ∷ bs)) "")) [
  | inl empty ↦ cc (str_eq→eq _ _ empty)
  | inr nonempty ↦ nonempty
]

module _ (codec : Codec) (signing : Signing codec) (pub_key priv : List ℕ)
    (pair : signing.IsPair pub_key priv) (type : String) (kind : TxType)
    (known : tx_type type ≡ some kind) (payload : String) (given : str_eq payload "" ≡ false)
    (nonce : ℕ) (message : List ℕ)
    (canonical : canonical_bytes codec (unsigned_tx type nonce (encode_hex pub_key) payload)
      ≡ some message) where
  -- A signed envelope is well-formed, and its signer has the key's address.
  pub sign_tx-authenticate :
      (tx : SignedTx) × (sign_tx codec signing priv type nonce (encode_hex pub_key) payload ≡ ok tx)
      × (authenticate codec tx ≡ ok (kind, address_from_pub_key codec pub_key))
      × (tx.nonce ≡ nonce)
      × (tx.payload ≡ payload)
  unfolding sign_tx authenticate validate_basic or_fail refuse_if canonical_bytes
  sign_tx-authenticate =
      let (sig, signed, size, bytes, valid) = signing.sign_lem pub_key priv message pair in
      let key_size = signing.pub_key-length pub_key priv pair in
      let key_read = decode_hex-encode_hex pub_key (signing.pub_key-Bytes pub_key priv pair) in
      let key_given = encode_hex-nonempty pub_key (omega (arith, key_size)) in
      let sig_read = decode_hex-encode_hex sig bytes in
      let sig_given = encode_hex-nonempty sig (omega (arith, size)) in
      (
        record (unsigned_tx type nonce (encode_hex pub_key) payload) {
          signature_hex = encode_hex sig;
        },
        rw (canonical, signed) refl,
        rw
            (
              known, key_given, key_read, sig_given, sig_read, given, key_size, size, canonical,
              valid,
            )
            refl,
        refl,
        refl,
      )

module _ ⦃bolt : Bolt⦄ (codec : Codec) where
  -- The handler of the message, run for an account, and the account's next nonce.
  abbrev pub run_as : World → String → TxType → String → Outcome (World × TxReceipt)
  run_as w addr kind payload = do
    (w', result) ← dispatch codec w addr kind payload (to_int64 w.height)
    w'' ← inc_nonce w' addr
    ok (w'', result)

  -- What a key pair signs with the next nonce of its address is run.
  pub sign_with-run_as :
      (signing : Signing codec) (w : World) (pub_key priv : List ℕ) (type : String) (kind : TxType)
      (payload : String) (message : List ℕ)
      → signing.IsPair pub_key priv
      → tx_type type ≡ some kind
      → str_eq payload "" ≡ false
      → canonical_bytes codec (
          unsigned_tx type
            (next_nonce w (address_from_pub_key codec pub_key))
            (encode_hex pub_key)
            payload)
        ≡ some message
      → sign_with codec signing priv
          (address_from_pub_key codec pub_key)
          (encode_hex pub_key)
          w
          type
          payload
        ≡ run_as w (address_from_pub_key codec pub_key) kind payload
  unfolding sign_with submit_tx refuse_if
  sign_with-run_as signing w pub_key priv type kind payload message pair known given canonical =
      let nonce = next_nonce w (address_from_pub_key codec pub_key) in
      let (tx, signed, who, nonce_eq, payload_eq) =
        sign_tx-authenticate codec signing pub_key priv pair type kind known payload given nonce
          message canonical in
      let due : (tx.nonce == nonce) ≡ true = ground (arith, nonce_eq) in
      rw (signed, who, due, payload_eq) refl

  -- For a name under which the keyring has a key with its own address, for a known type, a payload
  -- that is not empty and an envelope that JSON encodes, signAndSubmit is the run of the message's
  -- handler for the key's address followed by the address's next nonce: neither the signature nor
  -- the nonce is refused.
  pub sign_and_submit-run_as :
      (signing : Signing codec) (keyring : Option (List KeyringEntry)) (w : World) (name : String)
      (pub_key priv : List ℕ) (type : String) (kind : TxType) (payload : String) (message : List ℕ)
      → signing.IsPair pub_key priv
      → load_key keyring name ≡ ok (new_key codec name pub_key priv)
      → tx_type type ≡ some kind
      → str_eq payload "" ≡ false
      → canonical_bytes codec (
          unsigned_tx type
            (next_nonce w (address_from_pub_key codec pub_key))
            (encode_hex pub_key)
            payload)
        ≡ some message
      → sign_and_submit codec signing keyring w name type payload
        ≡ run_as w (address_from_pub_key codec pub_key) kind payload
  unfolding sign_and_submit or_fail
  sign_and_submit-run_as signing keyring w name pub_key priv type kind payload message pair loaded
        known given canonical =
      let pub_read = decode_hex-encode_hex pub_key (signing.pub_key-Bytes pub_key priv pair) in
      let priv_read = decode_hex-encode_hex priv (signing.priv-Bytes pub_key priv pair) in
      rw (loaded, priv_read, pub_read)
        (sign_with-run_as signing w pub_key priv type kind payload message pair known given
          canonical)
