-- ===== src/Solvency/Finality.antt =====
-- About nonces and requests that are over: the relation of two states that agree on them.
use l1_modular_blockchain.Common.{
  ℕ, ◌≡◌, ◌≢◌, ap, ◌∙◌, subst, true, false, some, none, List, All, All-map₂,
}
use native.Mathlib.Decide.{ℕ_discrete}
use l1_modular_blockchain.Types.{InferenceRequest, RequestStatus}
use l1_modular_blockchain.Bolt.{Bolt, get-put_ne}
use l1_modular_blockchain.State.{World}
use l1_modular_blockchain.Solvency.Close.{is_terminal, Resolves}
use l1_modular_blockchain.Solvency.Sweeps.{Swept, Current}

module _ ⦃bolt : Bolt⦄ where
  open bolt use {get, put}

  pub record Keeps (w w' : World) : Type 0 where
    pub same_nonces : w'.nonces ≡ w.nonces
    pub final :
        (k : ℕ) (r : InferenceRequest)
        → get w.requests k ≡ some r
        → is_terminal r.status ≡ true
        → get w'.requests k ≡ some r

  -- A step that does not write requests.
  pub untouched : (w w' : World) → w'.requests ≡ w.requests → w'.nonces ≡ w.nonces → Keeps w w'
  untouched w w' same nonces = record {
    same_nonces = nonces;
    final = λ k r here end. ap (λ t. get t k) same ∙ here;
  }

  pub Keeps-trans : (w w' w'' : World) → Keeps w w' → Keeps w' w'' → Keeps w w''
  Keeps-trans w w' w'' h k = record {
    same_nonces = k.same_nonces ∙ h.same_nonces;
    final = λ i r here end. k.final i r (h.final i r here end) end;
  }

  -- A step that writes one request, which is not over.
  pub writes_open :
      (w w' : World) (id : ℕ) (old new : InferenceRequest)
      → get w.requests id ≡ some old
      → is_terminal old.status ≡ false
      → w'.requests ≡ put w.requests id new
      → w'.nonces ≡ w.nonces
      → Keeps w w'
  writes_open w w' id old new here open_ wrote nonces = record {
    same_nonces = nonces;
    final = λ k r there end. elim (ℕ_discrete k id) [
      | yes same ↦
          let found : r ≡ old = cc (there, here, same) in
          let ends : is_terminal old.status ≡ true =
            subst (λ x. is_terminal x.status ≡ true) found end in
          let no_way : ⊥ = cc (ends, open_) in absurd no_way
      | no differ ↦ ap (λ t. get t k) wrote ∙ get-put_ne w.requests k id new differ ∙ there
    ];
  }

  pub writes_new :
      (w w' : World) (id : ℕ) (new : InferenceRequest)
      → get w.requests id ≡ none
      → w'.requests ≡ put w.requests id new
      → w'.nonces ≡ w.nonces
      → Keeps w w'
  writes_new w w' id new free wrote nonces = record {
    same_nonces = nonces;
    final = λ k r there end.
        let differ : k ≢ id = λ same. (cc (there, free, same)) in
        ap (λ t. get t k) wrote ∙ get-put_ne w.requests k id new differ ∙ there;
  }

  pub Resolves-Keeps :
      {total : ℕ} {end : RequestStatus} (w w' : World) (r : InferenceRequest)
      → get w.requests r.id ≡ some r
      → is_terminal r.status ≡ false
      → Resolves total w r end w'
      → Keeps w w'
  Resolves-Keeps w w' r here open_ d = record {
    same_nonces = d.same_nonces;
    final = λ k x there end. elim (ℕ_discrete k r.id) [
      | yes same ↦
          let found : x ≡ r = cc (there, here, same) in
          let ends : is_terminal r.status ≡ true =
            subst (λ x. is_terminal x.status ≡ true) found end in
          let no_way : ⊥ = cc (ends, open_) in absurd no_way
      | no differ ↦ d.others k differ ∙ there
    ];
  }

  -- A loop over requests that are stored as they are listed, and open.
  pub Swept-Keeps :
      {total : ℕ} {end : RequestStatus} (w w' : World) (rs : List InferenceRequest)
      → Swept total w rs end w'
      → Current w rs
      → All (λ r. is_terminal r.status ≡ false) rs
      → Keeps w w'
  Swept-Keeps w w' rs s c open_ = record {
    same_nonces = s.same_nonces;
    final = λ k x there end.
        s.others k (
          All-map₂ _ _ _ rs
            (λ r here live same.
              let found : x ≡ r = cc (there, here, same) in
              let ends : is_terminal r.status ≡ true =
                subst (λ y. is_terminal y.status ≡ true) found end in
              let no_way : ⊥ = cc (ends, live) in absurd no_way)
            c open_)
        ∙ there;
  }
