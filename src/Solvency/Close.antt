-- ===== src/Solvency/Close.antt =====
-- About the end of an open request: the statement of what it does to the state, and the lemmas
-- that every way of ending it shares.
use l1_modular_blockchain.Common.{
  ℕ, ◌+◌, ◌<◌, ◌≡◌, ◌≢◌, refl, sym, ◌∙◌, ap, Bool, true, false, Option, none, some, arith, is_some,
}
use l1_modular_blockchain.Int64.{ℤ}
use l1_modular_blockchain.Types.{
  Coin, InferenceRequest, RequestStatus, pending, submitted, challenged, finalized, slashed,
  refunded, Service,
}
use l1_modular_blockchain.Outcome.{Ends, returns, Never, or_fail}
use l1_modular_blockchain.Bolt.{Bolt, weigh-put, All-get, All-put, get-put_ne, get-put_self}
use l1_modular_blockchain.State.{World, Account, put_request, get_service}
use l1_modular_blockchain.State.Bank.Funds.{Holds}
use l1_modular_blockchain.Solvency.Stake.{
  Inv, IsSound, SoundEntry, OwnedEntry, HasShape, stake, stake_in, locked, locked_in,
}

abbrev pub is_terminal : RequestStatus → Bool
is_terminal finalized = true
is_terminal slashed = true
is_terminal refunded = true
is_terminal _ = false

module _ ⦃bolt : Bolt⦄ where
  open bolt use {Table, Dict, get, put, accepts}

  -- The request `r` is stored in a state with the status, and as it was in all but what its end
  -- writes.
  abbrev pub EndedAs : RequestStatus → World → InferenceRequest → Type 0
  EndedAs s w' r =
      (r' : InferenceRequest) × (get w'.requests r.id ≡ some r')
      × (r' ≡ record r { status = s; finalized_at_height = r'.finalized_at_height; paid = r'.paid })

  -- What ending the request `r` does to the state.
  pub record Resolves (total : ℕ) (w : World) (r : InferenceRequest) (s : RequestStatus)
      (w' : World) : Type 0 where
    pub inv : Inv total w'
    pub others : (k : ℕ) → k ≢ r.id → get w'.requests k ≡ get w.requests k
    pub same_services : w'.services ≡ w.services
    pub same_nonces : w'.nonces ≡ w.nonces
    pub same_height : w'.height ≡ w.height
    pub same_params : w'.params ≡ w.params
    pub same_domains : w'.domains ≡ w.domains
    pub ended : EndedAs s w' r

  pub or_fail-some {κ} :
      {A : Type 0} {P : A → Type κ} (o : Option A) (e : _)
      → is_some o ≡ true
      → ((a : A) → o ≡ some a → P a)
      → Ends Never P (or_fail o e)
  unfolding or_fail
  or_fail-some none e h f = cc
  or_fail-some (some a) e h f = returns (f a refl)

  terminal-stake :
      (r : InferenceRequest) (s : RequestStatus) → is_terminal s ≡ true → stake_in r s ≡ 0
  terminal-stake r pending h = cc
  terminal-stake r submitted h = cc
  terminal-stake r challenged h = cc
  terminal-stake r _ h = refl

  terminal-shape : (r : InferenceRequest) (s : RequestStatus) → is_terminal s ≡ true → HasShape r s
  terminal-shape r pending h = cc
  terminal-shape r submitted h = cc
  terminal-shape r challenged h = cc
  terminal-shape r _ h = tt

module _ ⦃bolt : Bolt⦄ {total : ℕ} (w : World) (v : Inv total w) where
  open bolt use {Table, Dict, get, put, accepts}

  pub service_owner :
      (id : ℕ) (svc : Service) → get w.services id ≡ some svc → accepts svc.owner ≡ true
  service_owner id svc e = (All-get OwnedEntry w.services id svc v.owned e).1

  pub request-IsSound :
      (id : ℕ) (r : InferenceRequest)
      → get w.requests id ≡ some r
      → (id ≡ r.id) × IsSound w.services r
  request-IsSound id r e = All-get (SoundEntry w.services) w.requests id r v.sound e

  pub service_row : (id : ℕ) (svc : Service) → get w.services id ≡ some svc → id ≡ svc.id
  service_row id svc e = (All-get OwnedEntry w.services id svc v.owned e).0

  -- A row is stored under its own id.
  pub request_stored :
      (id : ℕ) (r : InferenceRequest) → get w.requests id ≡ some r → get w.requests r.id ≡ some r
  request_stored id r e = ap (get w.requests) (sym (request-IsSound id r e).0) ∙ e

  pub service_stored :
      (id : ℕ) (svc : Service) → get w.services id ≡ some svc → get w.services svc.id ≡ some svc
  service_stored id svc e =
      ap (get w.services) (sym (All-get OwnedEntry w.services id svc v.owned e).0) ∙ e

  pub service_of :
      (r : InferenceRequest)
      → IsSound w.services r
      → Ends Never (λ svc. accepts svc.owner ≡ true) (get_service w r.service_id)
  service_of r s = or_fail-some _ _ s.served (service_owner r.service_id)

  module _ (r : InferenceRequest) (here : get w.requests r.id ≡ some r) where
    -- The request as it ends, and what is then locked.
    abbrev pub ended_as : RequestStatus → ℤ → Option Coin → InferenceRequest
    ended_as status height paid = record r {
      status = status;
      finalized_at_height = height;
      paid = paid;
    }

    abbrev pub rest : RequestStatus → ℤ → Option Coin → ℕ
    rest status height paid =
        locked_in (put w.requests r.id (ended_as status height paid)) w.services

    -- A terminal status releases the stake.
    pub release :
        (s : RequestStatus) (height : ℤ) (paid : Option Coin)
        → is_terminal s ≡ true
        → rest s height paid + stake r ≡ locked w
    release s height paid end =
        let r' = ended_as s height paid in
        omega (arith, weigh-put stake w.requests r.id r r' here, terminal-stake r' s end)

    pub close_request :
        (s : RequestStatus) (height : ℤ) (paid : Option Coin) (accs : Dict Account)
        → is_terminal s ≡ true
        → Holds total 0 (rest s height paid) accs
        → Resolves total w r s (put_request (record w { accounts = accs }) (ended_as s height paid))
    close_request s height paid accs end h =
        let r' = ended_as s height paid in
        let old = (request-IsSound r.id r here).1 in
        let sound : IsSound w.services r' = record {
          served = old.served;
          payable = old.payable;
          shaped = terminal-shape r' s end;
        } in
        let fresh = All-get (λ e. e.0 < w.next_req_id) w.requests r.id r v.fresh_requests here in
        record {
          inv = record {
            funded = h;
            sound = All-put (SoundEntry w.services) w.requests r.id r' (refl, sound) v.sound;
            owned = v.owned;
            fresh_requests = All-put _ w.requests r.id r' fresh v.fresh_requests;
            fresh_services = v.fresh_services;
          };
          others = λ k ne. get-put_ne w.requests k r.id r' ne;
          same_services = refl;
          same_nonces = refl;
          same_height = refl;
          same_params = refl;
          same_domains = refl;
          ended = (r', get-put_self w.requests r.id r', refl);
        }
