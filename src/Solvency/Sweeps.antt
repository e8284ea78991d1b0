-- ===== src/Solvency/Sweeps.antt =====
-- About the loops over requests that were collected from one state before any of them is changed.
use l1_modular_blockchain.Common.{
  ℕ, ◌+◌, ◌≤◌, ◌≡◌, ◌≢◌, refl, ◌∙◌, Bool, true, some, List, [], ◌∷◌, arith, All, map, All-map,
  All-map₂, All-select, sym, subst, select, inl, inr, Bool-cases,
}
use l1_modular_blockchain.Int64.{ℤ}
use l1_modular_blockchain.Types.{InferenceRequest, RequestStatus, Event}
use l1_modular_blockchain.Outcome.{Outcome, Ends, returns, Never, ◌then_by◌}
use l1_modular_blockchain.Bolt.{Bolt, Entries, AscendingFrom, AscendingFrom-le}
use l1_modular_blockchain.State.{World}
use l1_modular_blockchain.Resolution.Sweep.{sweep}
use l1_modular_blockchain.Solvency.Stake.{Inv}
use l1_modular_blockchain.Solvency.Close.{Resolves, EndedAs}

-- No request of the list has the id.
abbrev pub Fresh : ℕ → List InferenceRequest → Type 0
Fresh k = All λ r. k ≢ r.id

abbrev pub Distinct : List InferenceRequest → Type 0
Distinct [] = Unit
Distinct (r ∷ rs) = Fresh r.id rs × Distinct rs

-- Ids that ascend from a bound.
abbrev pub Rising : ℕ → List InferenceRequest → Type 0
Rising n [] = Unit
Rising n (r ∷ rs) = (n ≤ r.id) × Rising (r.id + 1) rs

pub rows-Rising :
    (n : ℕ) (es : Entries InferenceRequest)
    → AscendingFrom n es
    → All (λ e. e.0 ≡ e.1.id) es
    → Rising n (map (λ e. e.1) es)
rows-Rising n [] a h = tt
rows-Rising n ((k, r) ∷ es) a h =
    (omega arith, rows-Rising (r.id + 1) es (AscendingFrom-le _ _ es (omega arith) a.1) h.1)

Above : (n : ℕ) (rs : List InferenceRequest) → Rising n rs → All (λ r. n ≤ r.id) rs
Above n [] h = tt
Above n (r ∷ rs) h = (h.0, All-map _ _ rs (λ x b. omega arith) (Above (r.id + 1) rs h.1))

select-Above :
    (p : InferenceRequest → Bool) (n : ℕ) (rs : List InferenceRequest)
    → Rising n rs
    → All (λ r. n ≤ r.id) (select p rs)
select-Above p n rs h = All-select _ p rs (Above n rs h)

pub select-Distinct :
    (p : InferenceRequest → Bool) (n : ℕ) (rs : List InferenceRequest)
    → Rising n rs
    → Distinct (select p rs)
select-Distinct p n [] h = tt
select-Distinct p n (r ∷ rs) h =
    let fresh : Fresh r.id (select p rs) =
      All-map _ _ (select p rs) (λ x b. omega arith) (select-Above p (r.id + 1) rs h.1) in
    ground (arith, fresh, select-Distinct p (r.id + 1) rs h.1)

-- Two tests that never both pass select requests of different ids.
pub select-apart :
    (p q : InferenceRequest → Bool) (n : ℕ) (rs : List InferenceRequest)
    → ((r : InferenceRequest) → p r ≡ true → q r ≡ true → ⊥)
    → Rising n rs
    → All (λ r. Fresh r.id (select q rs)) (select p rs)
select-apart p q n [] d h = tt
select-apart p q n (r ∷ rs) d h =
    let tail = select-apart p q (r.id + 1) rs d h.1 in
    let fresh : Fresh r.id (select q rs) =
      All-map _ _ (select q rs) (λ x b. omega arith) (select-Above q (r.id + 1) rs h.1) in
    let behind : All (λ x. (x.id ≢ r.id) × Fresh x.id (select q rs)) (select p rs) =
      All-map₂ _ _ _ (select p rs) (λ x b f. (omega arith, f)) (select-Above p (r.id + 1) rs h.1)
        tail in
    elim (Bool-cases (p r)) [
      | inl hit ↦ elim (Bool-cases (q r)) [
        | inl both ↦ absurd (d r hit both)
        | inr miss ↦
            let skip : select q (r ∷ rs) ≡ select q rs = rw miss in
            rw hit (
              subst (λ ys. Fresh r.id ys × All (λ x. Fresh x.id ys) (select p rs)) (sym skip)
                (fresh, tail))
      ]
      | inr out ↦ elim (Bool-cases (q r)) [
        | inl hit ↦
            let keep : select q (r ∷ rs) ≡ r ∷ select q rs = rw hit in
            rw out (subst (λ ys. All (λ x. Fresh x.id ys) (select p rs)) (sym keep) behind)
        | inr miss ↦
            let skip : select q (r ∷ rs) ≡ select q rs = rw miss in
            rw out (subst (λ ys. All (λ x. Fresh x.id ys) (select p rs)) (sym skip) tail)
      ]
    ]

module _ ⦃bolt : Bolt⦄ where
  open bolt use {get}

  -- Each request of the list is what the store has under its id.
  abbrev pub Current : World → List InferenceRequest → Type 0
  Current w = All λ r. get w.requests r.id ≡ some r

  -- The sweep has brought every request of the list to the status, and no other has changed.
  pub record Swept (total : ℕ) (w : World) (rs : List InferenceRequest) (end : RequestStatus)
      (w' : World) : Type 0 where
    pub inv : Inv total w'
    pub ended : All (EndedAs end w') rs
    pub same_height : w'.height ≡ w.height
    pub same_params : w'.params ≡ w.params
    pub same_domains : w'.domains ≡ w.domains
    pub others : (k : ℕ) → Fresh k rs → get w'.requests k ≡ get w.requests k
    pub same_services : w'.services ≡ w.services
    pub same_nonces : w'.nonces ≡ w.nonces

  -- What is current stays so under a sweep of other requests.
  pub Swept-Current :
      {total : ℕ} {end : RequestStatus} (w w' : World) (rs : List InferenceRequest)
      (others : List InferenceRequest)
      → Swept total w rs end w'
      → All (λ r. Fresh r.id rs) others
      → Current w others
      → Current w' others
  Swept-Current w w' rs [] s f c = tt
  Swept-Current w w' rs (r ∷ others) s f c =
      (s.others r.id f.0 ∙ c.0, Swept-Current w w' rs others s f.1 c.1)

  Resolves-Current :
      {total : ℕ} {end : RequestStatus} (w w' : World) (r : InferenceRequest)
      (rs : List InferenceRequest)
      → Resolves total w r end w'
      → Fresh r.id rs
      → Current w rs
      → Current w' rs
  Resolves-Current w w' r [] s f c = tt
  Resolves-Current w w' r (x ∷ rs) s f c =
      (s.others x.id (λ e. f.0 (sym e)) ∙ c.0, Resolves-Current w w' r rs s f.1 c.1)

  pub sweep-Swept {κ} :
      {total : ℕ} (P : InferenceRequest → Type κ) (end : RequestStatus)
      (step : World → InferenceRequest → ℤ → Outcome (World × Event)) (height : ℤ)
      → ((w : World)
          → Inv total w
          → (r : InferenceRequest) → get w.requests r.id ≡ some r
          → P r
          → Ends Never (λ x. Resolves total w r end x.0) (step w r height))
      → (rs : List InferenceRequest) (w : World) → Inv total w
      → Current w rs
      → Distinct rs
      → All P rs
      → Ends Never (λ x. Swept total w rs end x.0) (sweep step w rs height)
  unfolding sweep
  sweep-Swept P end step height one [] w v c d p = returns (record {
    inv = v;
    ended = tt;
    same_height = refl;
    same_params = refl;
    same_domains = refl;
    others = λ k f. refl;
    same_services = refl;
    same_nonces = refl;
  })
  sweep-Swept P end step height one (r ∷ rs) w v c d p = one w v r c.0 p.0 then_by λ x done.
      sweep-Swept P end step height one rs x.0 done.inv (Resolves-Current w x.0 r rs done d.0 c.1)
        d.1 p.1
      then_by λ y rest. returns (record {
        inv = rest.inv;
        ended = ((done.ended.0, rest.others r.id d.0 ∙ done.ended.1, done.ended.2), rest.ended);
        same_height = rest.same_height ∙ done.same_height;
        same_params = rest.same_params ∙ done.same_params;
        same_domains = rest.same_domains ∙ done.same_domains;
        others = λ k f. rest.others k f.1 ∙ done.others k f.0;
        same_services = rest.same_services ∙ done.same_services;
        same_nonces = rest.same_nonces ∙ done.same_nonces;
      })
