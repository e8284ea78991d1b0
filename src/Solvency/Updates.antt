-- ===== src/Solvency/Updates.antt =====
-- About writes of one row and the invariant, given what the accounts then hold.
use native.Mathlib.Decide.{ℕ_discrete}
use l1_modular_blockchain.Common.{
  ℕ, ◌+◌, ◌%◌, ◌^◌, ◌<◌, ◌≡◌, refl, ◌∙◌, true, some, none, arith, is_some, All-map, ap,
}
use l1_modular_blockchain.Types.{Service, InferenceRequest}
use l1_modular_blockchain.Bolt.{
  Bolt, weigh-put, weigh-put_new, All-get, All-put, get-put_ne, get-put_self, get_fresh,
}
use l1_modular_blockchain.State.{World, Account}
use l1_modular_blockchain.State.Bank.Funds.{Holds, Holds-le}
use l1_modular_blockchain.Solvency.Stake.{
  Inv, IsSound, SoundEntry, OwnedEntry, stake, service_bond, locked, locked_in,
}

module _ ⦃bolt : Bolt⦄ where
  open bolt use {Table, Dict, get, put, cursor, accepts}

  -- A service that exists still does after a write.
  served-put :
      (svcs : Table Service) (j k : ℕ) (svc : Service)
      → is_some (get svcs j) ≡ true
      → is_some (get (put svcs k svc) j) ≡ true
  served-put svcs j k svc h = elim (ℕ_discrete j k) [
    | yes same ↦ rw (same, get-put_self svcs k svc)
    | no differ ↦ rw (get-put_ne svcs j k svc differ) h
  ]

  put-SoundEntry :
      (svcs : Table Service) (k : ℕ) (svc : Service) (e : ℕ × InferenceRequest)
      → SoundEntry svcs e
      → SoundEntry (put svcs k svc) e
  put-SoundEntry svcs k svc e h = (
    h.0,
    record {
      served = served-put svcs e.1.service_id k svc h.1.served;
      payable = h.1.payable;
      shaped = h.1.shaped;
    },
  )

module _ ⦃bolt : Bolt⦄ {total : ℕ} (w : World) (v : Inv total w) where
  open bolt use {Table, Dict, get, put, cursor, accepts}

  -- `a` and `r'` are what is written.
  pub update_request-Inv :
      (r r' : InferenceRequest) (a : Dict Account)
      → get w.requests r'.id ≡ some r
      → IsSound w.services r'
      → Holds total 0 (locked_in (put w.requests r'.id r') w.services) a
      → Inv total (record w { accounts = a; requests = put w.requests r'.id r' })
  update_request-Inv r r' a here s h = record {
    funded = h;
    sound = All-put (SoundEntry w.services) w.requests r'.id r' (refl, s) v.sound;
    owned = v.owned;
    fresh_requests =
        All-put _ w.requests r'.id r'
          (All-get (λ e. e.0 < w.next_req_id) w.requests r'.id r v.fresh_requests here)
          v.fresh_requests;
    fresh_services = v.fresh_services;
  }

  -- What is locked after a request is rewritten.
  pub relock :
      (r r' : InferenceRequest)
      → get w.requests r'.id ≡ some r
      → locked_in (put w.requests r'.id r') w.services + stake r ≡ locked w + stake r'
  relock r r' here = omega (arith, weigh-put stake w.requests r'.id r r' here)

  pub add_request-Inv :
      (r : InferenceRequest) (a : Dict Account)
      → r.id ≡ w.next_req_id
      → w.next_req_id + 1 < 2 ^ 64
      → IsSound w.services r
      → Holds total 0 (locked w + stake r) a
      → Inv total (record w {
        accounts = a;
        next_req_id = (w.next_req_id + 1) % 2 ^ 64;
        requests = put w.requests r.id r;
      })
  add_request-Inv r a eq room s h =
      let fresh : get w.requests r.id ≡ none =
        ap (get w.requests) eq ∙ get_fresh w.requests w.next_req_id v.fresh_requests in
      record {
        funded = Holds-le _ (omega (arith, weigh-put_new stake w.requests r.id r fresh)) h;
        sound = All-put (SoundEntry w.services) w.requests r.id r (refl, s) v.sound;
        owned = v.owned;
        fresh_requests =
            All-put (λ e. e.0 < (w.next_req_id + 1) % 2 ^ 64) w.requests r.id r (omega arith)
              (All-map _ _ (cursor w.requests) (λ e b. omega arith) v.fresh_requests);
        fresh_services = v.fresh_services;
      }

  -- A service is rewritten; `names` is the name index.
  pub update_service-Inv :
      (svc svc' : Service) (a : Dict Account) (names : Dict ℕ)
      → get w.services svc'.id ≡ some svc
      → accepts svc'.owner ≡ true
      → Holds total 0 (locked_in w.requests (put w.services svc'.id svc')) a
      → Inv total
          (record w { accounts = a; services = put w.services svc'.id svc'; svc_by_name = names })
  update_service-Inv svc svc' a names here owner h = record {
    funded = h;
    sound = All-map _ _ (cursor w.requests) (put-SoundEntry w.services svc'.id svc') v.sound;
    owned = All-put OwnedEntry w.services svc'.id svc' (refl, owner) v.owned;
    fresh_requests = v.fresh_requests;
    fresh_services =
        All-put _ w.services svc'.id svc'
          (All-get (λ e. e.0 < w.next_svc_id) w.services svc'.id svc v.fresh_services here)
          v.fresh_services;
  }

  pub rebond :
      (svc svc' : Service)
      → get w.services svc'.id ≡ some svc
      → locked_in w.requests (put w.services svc'.id svc') + service_bond svc
        ≡ locked w + service_bond svc'
  rebond svc svc' here = omega (arith, weigh-put service_bond w.services svc'.id svc svc' here)

  pub add_service-Inv :
      (svc : Service) (a : Dict Account) (names : Dict ℕ)
      → svc.id ≡ w.next_svc_id
      → w.next_svc_id + 1 < 2 ^ 64
      → accepts svc.owner ≡ true
      → Holds total 0 (locked w + service_bond svc) a
      → Inv total (record w {
        accounts = a;
        next_svc_id = (w.next_svc_id + 1) % 2 ^ 64;
        services = put w.services svc.id svc;
        svc_by_name = names;
      })
  add_service-Inv svc a names eq room owner h =
      let fresh : get w.services svc.id ≡ none =
        ap (get w.services) eq ∙ get_fresh w.services w.next_svc_id v.fresh_services in
      record {
        funded =
            Holds-le _ (omega (arith, weigh-put_new service_bond w.services svc.id svc fresh)) h;
        sound = All-map _ _ (cursor w.requests) (put-SoundEntry w.services svc.id svc) v.sound;
        owned = All-put OwnedEntry w.services svc.id svc (refl, owner) v.owned;
        fresh_requests = v.fresh_requests;
        fresh_services =
            All-put (λ e. e.0 < (w.next_svc_id + 1) % 2 ^ 64) w.services svc.id svc (omega arith)
              (All-map _ _ (cursor w.services) (λ e b. omega arith) v.fresh_services);
      }
