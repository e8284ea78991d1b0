-- ===== src/Solvency/Once.antt =====
-- What an account can do once only: vouch on a request, and deactivate a service.
use l1_modular_blockchain.Common.{
  ℕ, ◌≡◌, ◌≢◌, refl, sym, ap, ◌∙◌, String, true, false, some, List, [], ◌∷◌, ◌++◌, arith,
  str_eq_refl,
}
use l1_modular_blockchain.Int64.{ℤ}
use l1_modular_blockchain.Types.{
  Service, InferenceRequest, Voucher, MsgVouch, MsgDeactivateService, Event, no_coin,
}
use l1_modular_blockchain.Outcome.{
  ok, Ends, returns, Any, ◌then_by◌, past_guard, past_check, or_fail, or_fail-Ends, Ends-ok,
  anything,
}
use l1_modular_blockchain.Bolt.{Bolt, get-put_self}
use l1_modular_blockchain.State.{World, get_service}
use l1_modular_blockchain.State.Bank.{move_coin}
use l1_modular_blockchain.Tx.Disputes.{has_vouched, apply_vouch}
use l1_modular_blockchain.Tx.Services.{apply_deactivate_service}
use l1_modular_blockchain.Solvency.Stake.{Inv}
use l1_modular_blockchain.Solvency.Close.{request-IsSound, service_row}
use l1_modular_blockchain.Solvency.ServiceTxs.{put_service-Ends}

has_vouched-last : (vs : List Voucher) (v : Voucher) → has_vouched v.voucher (vs ++ v ∷ []) ≡ true
unfolding has_vouched
has_vouched-last [] v = ground (arith, str_eq_refl v.voucher)
has_vouched-last (u ∷ vs) v = ground (arith, has_vouched-last vs v)

module _ ⦃bolt : Bolt⦄ where
  open bolt use {get, put}

  -- The account has vouched on the request.
  pub record Vouched (w : World) (id : ℕ) (signer : String) : Type 0 where
    pub request : InferenceRequest
    pub stored : get w.requests id ≡ some request
    pub among : has_vouched signer request.vouchers ≡ true

  vouch-Vouched :
      {total : ℕ} (w : World) (signer : String) (msg : MsgVouch) (height : ℤ)
      → Inv total w
      → Ends Any (λ x. Vouched x.0 msg.request_id signer) (apply_vouch w signer msg height)
  unfolding apply_vouch
  vouch-Vouched w signer msg height v = past_guard _ _ λ _.
      or_fail-Ends {P = λ r. get w.requests msg.request_id ≡ some r} _ _ (λ r e. e) then_by λ req e.
      past_guard _ _ λ status. anything (or_fail _ _) then_by λ dispute _. past_guard _ _ λ _.
        anything (get_service w req.service_id) then_by λ svc _. past_check _ (
          anything (or_fail _ _) then_by λ side _. past_guard _ _ λ _. past_guard _ _ λ _.
            anything (move_coin _ _ _ _) then_by λ accs _.
            let id : msg.request_id ≡ req.id = (request-IsSound w v msg.request_id req e).0 in
            returns (record {
              request = _;
              stored = ap (get _) id ∙ get-put_self w.requests req.id _;
              among = has_vouched-last req.vouchers _;
            }))

  Vouched-refused :
      (w : World) (signer : String) (msg : MsgVouch) (height : ℤ)
      → Vouched w msg.request_id signer
      → Ends Any (λ x. ⊥) (apply_vouch w signer msg height)
  unfolding apply_vouch
  Vouched-refused w signer msg height h = past_guard _ _ λ _.
      or_fail-Ends {P = λ r. get w.requests msg.request_id ≡ some r} _ _ (λ r e. e) then_by λ r e.
      past_guard _ _ λ _. anything (or_fail _ _) then_by λ sides _. past_guard _ _ λ _.
        anything (get_service w r.service_id) then_by λ svc _. past_check _ (
          anything (or_fail _ _) then_by λ side _. past_guard _ _ λ fresh.
            let same : h.request ≡ r = cc (h.stored, e) in
            let not_yet : ⊥ = cc (h.among, fresh, same) in absurd not_yet)

  -- On a state that satisfies the invariant, an account whose vouch on a request is accepted
  -- cannot vouch on it again in the state after it: with that request's id, whatever else the next
  -- message has and at any height, no vouch of the account succeeds.
  pub apply_vouch-once :
      {total : ℕ} (w w' : World) (signer : String) (msg msg' : MsgVouch) (height height' : ℤ)
      (event : Event)
      → Inv total w
      → apply_vouch w signer msg height ≡ ok (w', event)
      → msg'.request_id ≡ msg.request_id
      → (result : World × Event) → apply_vouch w' signer msg' height' ≢ ok result
  apply_vouch-once w w' signer msg msg' height height' event v done same result again =
      let h = Ends-ok (vouch-Vouched w signer msg height v) done in
      Ends-ok
        (Vouched-refused w' signer msg' height'
          (record { request = h.request; stored = ap (get _) same ∙ h.stored; among = h.among }))
        again

  -- The service is closed: not active, and with no bond.
  pub record IsClosed (w : World) (id : ℕ) : Type 0 where
    pub service : Service
    pub stored : get w.services id ≡ some service
    pub inactive : service.active ≡ false
    pub no_bond : service.registration_bond ≡ no_coin

  -- On a state that satisfies the invariant, applyDeactivateService fails or leaves the service
  -- stored as inactive and with an empty bond, whether the bond went to its owner or to the
  -- treasury.
  pub apply_deactivate_service-IsClosed :
      {total : ℕ} (w : World) (signer : String) (msg : MsgDeactivateService) (height : ℤ)
      → Inv total w
      → Ends Any (λ x. IsClosed x.0 msg.service_id) (apply_deactivate_service w signer msg height)
  unfolding apply_deactivate_service
  apply_deactivate_service-IsClosed w signer msg height v = past_guard _ _ λ _.
      or_fail-Ends {P = λ svc. get w.services msg.service_id ≡ some svc} _ _ (λ svc e. e)
      then_by λ svc e. past_guard _ _ λ _. past_guard _ _ λ _.
        anything (move_coin _ _ _ _) then_by λ accs _. put_service-Ends _ _ then_by λ next n.
        let id : msg.service_id ≡ svc.id = (service_row w v msg.service_id svc e) in
        returns (record {
          service = record svc { active = false; registration_bond = no_coin };
          stored =
              ap (λ x. get x.services msg.service_id) n.1
              ∙ ap (get _) id
              ∙ get-put_self w.services svc.id _;
          inactive = refl;
          no_bond = refl;
        })

  closed-refused :
      (w : World) (signer : String) (msg : MsgDeactivateService) (height : ℤ)
      → IsClosed w msg.service_id
      → Ends Any (λ x. ⊥) (apply_deactivate_service w signer msg height)
  unfolding apply_deactivate_service
  closed-refused w signer msg height h = past_guard _ _ λ _.
      or_fail-Ends {P = λ svc. get w.services msg.service_id ≡ some svc} _ _ (λ svc e. e)
      then_by λ svc e. past_guard _ _ λ _. past_guard _ _ λ live.
        let same : h.service ≡ svc = cc (h.stored, e) in
        let flag : svc.active ≡ false = ap (λ s. s.active) (sym same) ∙ h.inactive in
        let not_yet : ⊥ = ground arith in absurd not_yet

  -- On a state that satisfies the invariant, a service whose deactivation is accepted cannot be
  -- deactivated again in the state after it, by any account, message and height.
  pub apply_deactivate_service-once :
      {total : ℕ} (w w' : World) (signer signer' : String) (msg msg' : MsgDeactivateService)
      (height height' : ℤ) (event : Event)
      → Inv total w
      → apply_deactivate_service w signer msg height ≡ ok (w', event)
      → msg'.service_id ≡ msg.service_id
      → (result : World × Event) → apply_deactivate_service w' signer' msg' height' ≢ ok result
  apply_deactivate_service-once w w' signer signer' msg msg' height height' event v done same result
        again =
      let h = Ends-ok (apply_deactivate_service-IsClosed w signer msg height v) done in
      Ends-ok
        (closed-refused w' signer' msg' height' (record {
          service = h.service;
          stored = ap (get _) same ∙ h.stored;
          inactive = h.inactive;
          no_bond = h.no_bond;
        }))
        again
