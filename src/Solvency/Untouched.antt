-- ===== src/Solvency/Untouched.antt =====
-- About the eleven handlers of chain/internal/state/tx.go, and what none of them writes.
use l1_modular_blockchain.Common.{
  ℕ, ◌≡◌, refl, ap, String, Bool, true, false, not, some, List, [], ◌∷◌, arith, if◌then◌else◌,
  Bool-cases, inl, inr,
}
use l1_modular_blockchain.Int64.{ℤ}
use l1_modular_blockchain.Types.{
  Service, InferenceRequest, RequestStatus, Event, Error, MsgRegisterService, MsgRequestInference,
  MsgSubmitResult, MsgChallenge, MsgVouch, MsgUpdateService, MsgDeactivateService, MsgTransfer,
  MsgRegisterDomain, MsgResolveChallenge, MsgDeactivateDomain, challenged,
}
use l1_modular_blockchain.Outcome.{
  err, Ends, returns, fails, Any, ◌then_by◌, past_guard, past_check, or_fail, or_fail-Ends,
  anything, weaken, Any-of_Never, Ends-both,
}
use l1_modular_blockchain.Bolt.{Bolt, get_fresh}
use l1_modular_blockchain.State.{World, get_service, get_domain, put_domain}
use l1_modular_blockchain.State.Bank.{move, move_coin, move_bond}
use l1_modular_blockchain.Resolution.Slash.{execute_slash}
use l1_modular_blockchain.Resolution.Dismiss.{execute_dismiss}
use l1_modular_blockchain.Tx.Services.{
  apply_register_service, apply_update_service, apply_deactivate_service,
}
use l1_modular_blockchain.Tx.Requests.{
  is_pending, is_submitted, is_challenged, is_zero, apply_request_inference, apply_submit_result,
  conclude, finalize_now, file_result,
}
use l1_modular_blockchain.Tx.Disputes.{apply_challenge, apply_vouch, apply_resolve_challenge}
use l1_modular_blockchain.Tx.Domains.{
  apply_register_domain, apply_deactivate_domain, close_service, close_services,
}
use l1_modular_blockchain.Tx.Accounts.{apply_transfer}
use l1_modular_blockchain.Solvency.Stake.{Inv}
use l1_modular_blockchain.Solvency.Close.{is_terminal, request_stored}
use l1_modular_blockchain.Solvency.Outcomes.{execute_slash-Resolves, execute_dismiss-Resolves}
use l1_modular_blockchain.Solvency.ServiceTxs.{put_service-Ends}
use l1_modular_blockchain.Solvency.DomainTxs.{close_services-Inv, void_open-Swept, put_domain-Inv}
use l1_modular_blockchain.Solvency.Finality.{
  Keeps, untouched, Keeps-trans, writes_open, writes_new, Resolves-Keeps,
}

pending_lasts : (s : RequestStatus) → not (is_pending s) ≡ false → is_terminal s ≡ false
pending_lasts s h = ground arith

submitted_lasts : (s : RequestStatus) → not (is_submitted s) ≡ false → is_terminal s ≡ false
submitted_lasts s h = ground arith

challenged_lasts : (s : RequestStatus) → not (is_challenged s) ≡ false → is_terminal s ≡ false
challenged_lasts s h = ground arith

is_challenged→eq : (s : RequestStatus) → not (is_challenged s) ≡ false → s ≡ challenged
is_challenged→eq s h = ground arith

module _ ⦃bolt : Bolt⦄ (w : World) (signer : String) where
  pub apply_transfer-Keeps : (msg : MsgTransfer) → Ends Any (Keeps w) (apply_transfer w signer msg)
  unfolding apply_transfer
  apply_transfer-Keeps msg = past_guard _ _ λ _.
      past_guard _ _
        λ _. anything (move _ _ _ _) then_by λ accs _. returns (untouched w _ refl refl)

  pub apply_register_service-Keeps :
      (msg : MsgRegisterService) (height : ℤ)
      → Ends Any (λ x. Keeps w x.0) (apply_register_service w signer msg height)
  unfolding apply_register_service
  apply_register_service-Keeps msg height = past_guard _ _ λ _. past_guard _ _ λ _.
      past_guard _ _ λ _. past_guard _ _ λ _. past_check _ (
        anything (move_coin _ _ _ _) then_by λ accs _. put_service-Ends _ _ then_by λ next n.
        returns (untouched w next (ap (λ x. x.requests) n.1) (ap (λ x. x.nonces) n.1)))

  pub apply_update_service-Keeps :
      (msg : MsgUpdateService) (height : ℤ)
      → Ends Any (λ x. Keeps w x.0) (apply_update_service w signer msg height)
  unfolding apply_update_service
  apply_update_service-Keeps msg height = past_guard _ _ λ _.
      anything (get_service w msg.service_id) then_by λ svc _. past_guard _ _ λ _.
        past_guard _ _ λ _. past_guard _ _ λ _. past_guard _ _ λ _.
          put_service-Ends _ _ then_by λ next n.
          returns (untouched w next (ap (λ x. x.requests) n.1) (ap (λ x. x.nonces) n.1))

  pub apply_deactivate_service-Keeps :
      (msg : MsgDeactivateService) (height : ℤ)
      → Ends Any (λ x. Keeps w x.0) (apply_deactivate_service w signer msg height)
  unfolding apply_deactivate_service
  apply_deactivate_service-Keeps msg height = past_guard _ _ λ _.
      anything (get_service w msg.service_id) then_by λ svc _. past_guard _ _ λ _.
        past_guard _ _ λ _. anything (move_coin _ _ _ _) then_by λ accs _.
        put_service-Ends _ _ then_by λ next n.
        returns (untouched w next (ap (λ x. x.requests) n.1) (ap (λ x. x.nonces) n.1))

  pub apply_register_domain-Keeps :
      (msg : MsgRegisterDomain) (height : ℤ)
      → Ends Any (λ x. Keeps w x.0) (apply_register_domain w signer msg height)
  unfolding apply_register_domain
  apply_register_domain-Keeps msg height = past_guard _ _ λ _.
      past_guard _ _ λ _. past_guard _ _ λ _. past_guard _ _ λ _. returns (untouched w _ refl refl)

module _ ⦃bolt : Bolt⦄ {total : ℕ} (w : World) (v : Inv total w) (signer : String) where
  open bolt use {get, put}

  pub apply_request_inference-Keeps :
      (msg : MsgRequestInference) (height : ℤ)
      → Ends Any (λ x. Keeps w x.0) (apply_request_inference w signer msg height)
  unfolding apply_request_inference
  apply_request_inference-Keeps msg height = past_guard _ _ λ _.
      anything (get_service w msg.service_id) then_by λ svc _. past_guard _ _ λ _.
        past_guard _ _ λ _. past_guard _ _ λ _. anything (move _ _ _ _) then_by λ accs _. returns (
          writes_new w _ w.next_req_id _ (get_fresh w.requests w.next_req_id v.fresh_requests) refl
            refl)

  conclude-Keeps :
      (req r : InferenceRequest) (accs : _) (height : ℤ) (event : Event)
      → get w.requests r.id ≡ some req
      → is_terminal req.status ≡ false
      → Ends Any (λ x. Keeps w x.0) (conclude (record w { accounts = accs }) signer r height event)
  unfolding conclude finalize_now
  conclude-Keeps req r accs height event here open_ =
      elim (Bool-cases (is_zero w.params.challenge_window_blocks)) [
        | inl at_once ↦ rw at_once (
            anything (move _ _ _ _) then_by λ paid _.
            anything (move_bond _ _ _ _) then_by λ released _.
            returns (writes_open w _ r.id req _ here open_ refl refl))
        | inr later ↦ rw later (returns (writes_open w _ r.id req _ here open_ refl refl))
      ]

  pub apply_submit_result-Keeps :
      (msg : MsgSubmitResult) (height : ℤ)
      → Ends Any (λ x. Keeps w x.0) (apply_submit_result w signer msg height)
  unfolding apply_submit_result
  apply_submit_result-Keeps msg height = past_guard _ _ λ _.
      or_fail-Ends {P = λ r. get w.requests msg.request_id ≡ some r} _ _ (λ r e. e) then_by λ req e.
      past_guard _ _ λ status. anything (get_service w req.service_id) then_by λ svc _.
      past_guard _ _ λ _. past_guard _ _ λ _. past_guard _ _ λ _. past_check _ (
        anything (move_coin _ _ _ _) then_by λ accs _.
        conclude-Keeps req (file_result w req msg height) accs height _
          (request_stored w v msg.request_id req e) (pending_lasts req.status status))

  pub apply_challenge-Keeps :
      (msg : MsgChallenge) (height : ℤ)
      → Ends Any (λ x. Keeps w x.0) (apply_challenge w signer msg height)
  unfolding apply_challenge
  apply_challenge-Keeps msg height = past_guard _ _ λ _.
      or_fail-Ends {P = λ r. get w.requests msg.request_id ≡ some r} _ _ (λ r e. e) then_by λ req e.
      past_guard _ _ λ status. past_guard _ _ λ _. past_guard _ _ λ _.
        anything (or_fail _ _) then_by λ result _. past_guard _ _ λ _.
          anything (get_service w req.service_id) then_by λ svc _. past_check _ (
            anything (move_coin _ _ _ _) then_by λ accs _. returns (
              writes_open w _ req.id req _ (request_stored w v msg.request_id req e)
                (submitted_lasts req.status status) refl refl))

  pub apply_vouch-Keeps :
      (msg : MsgVouch) (height : ℤ) → Ends Any (λ x. Keeps w x.0) (apply_vouch w signer msg height)
  unfolding apply_vouch
  apply_vouch-Keeps msg height = past_guard _ _ λ _.
      or_fail-Ends {P = λ r. get w.requests msg.request_id ≡ some r} _ _ (λ r e. e) then_by λ req e.
      past_guard _ _ λ status. anything (or_fail _ _) then_by λ dispute _. past_guard _ _ λ _.
        anything (get_service w req.service_id) then_by λ svc _. past_check _ (
          anything (or_fail _ _) then_by λ side _. past_guard _ _ λ _. past_guard _ _ λ _.
            anything (move_coin _ _ _ _) then_by λ accs _. returns (
              writes_open w _ req.id req _ (request_stored w v msg.request_id req e)
                (challenged_lasts req.status status) refl refl))

  resolution-Keeps :
      (r : InferenceRequest) (height : ℤ) (dismissed slashed_ : Bool) (e : Error)
      → get w.requests r.id ≡ some r
      → not (is_challenged r.status) ≡ false
      → Ends Any
          (λ x. Keeps w x.0)
          (if dismissed
            then execute_dismiss w r height
            else if slashed_
            then execute_slash w r height
            else err e)
  resolution-Keeps r height true s e here status = Any-of_Never (
      weaken (λ x d. Resolves-Keeps w x.0 r here (challenged_lasts r.status status) d)
        (execute_dismiss-Resolves w v r here height (is_challenged→eq r.status status)))
  resolution-Keeps r height false true e here status = Any-of_Never (
      weaken (λ x d. Resolves-Keeps w x.0 r here (challenged_lasts r.status status) d)
        (execute_slash-Resolves w v r here height (is_challenged→eq r.status status)))
  resolution-Keeps r height false false e here status = fails tt

  pub apply_resolve_challenge-Keeps :
      (msg : MsgResolveChallenge) (height : ℤ)
      → Ends Any (λ x. Keeps w x.0) (apply_resolve_challenge w signer msg height)
  unfolding apply_resolve_challenge
  apply_resolve_challenge-Keeps msg height = past_check _ (
      or_fail-Ends {P = λ r. get w.requests msg.request_id ≡ some r} _ _ (λ r e. e) then_by λ r e.
      past_guard _ _ λ status.
        resolution-Keeps r height _ _ _ (request_stored w v msg.request_id r e) status
        then_by λ x k. returns k)

module _ ⦃bolt : Bolt⦄ where
  close_service-Keeps :
      (w : World) (svc : Service) (height : ℤ)
      → Ends Any (λ x. Keeps w x.0) (close_service w svc height)
  unfolding close_service
  close_service-Keeps w svc height = elim (Bool-cases svc.active) [
    | inl live ↦ rw live (
        anything (move_coin _ _ _ _) then_by λ accs _. put_service-Ends _ _ then_by λ next n.
        returns (untouched w next (ap (λ x. x.requests) n.1) (ap (λ x. x.nonces) n.1)))
    | inr closed ↦ rw closed (returns (untouched w w refl refl))
  ]

  close_services-Keeps :
      (w : World) (ids : List ℕ) (height : ℤ)
      → Ends Any (λ x. Keeps w x.0) (close_services w ids height)
  unfolding close_services
  close_services-Keeps w [] height = returns (untouched w w refl refl)
  close_services-Keeps w (id ∷ ids) height = anything (get_service w id) then_by λ svc _.
      close_service-Keeps w svc height then_by λ x kept.
      close_services-Keeps x.0 ids height then_by λ y rest.
      returns (Keeps-trans w x.0 y.0 kept rest)

module _ ⦃bolt : Bolt⦄ {total : ℕ} (w : World) (v : Inv total w) (signer : String) where
  pub apply_deactivate_domain-Keeps :
      (msg : MsgDeactivateDomain) (height : ℤ)
      → Ends Any (λ x. Keeps w x.0) (apply_deactivate_domain w signer msg height)
  unfolding apply_deactivate_domain
  apply_deactivate_domain-Keeps msg height = past_check _ (
      anything (get_domain w msg.domain_id) then_by λ d _. past_guard _ _ λ _.
        let w' = put_domain w (record d { active = false }) in
        Ends-both
          (close_services-Inv w' (put_domain-Inv w (record d { active = false }) v) _ height)
          (close_services-Keeps w' _ height)
        then_by λ x h. Any-of_Never (void_open-Swept x.0 h.0 _ height) then_by λ y swept. returns (
            Keeps-trans w x.0 y.0 (record { same_nonces = h.1.same_nonces; final = h.1.final })
              swept.1))
