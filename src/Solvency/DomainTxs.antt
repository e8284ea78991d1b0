-- ===== src/Solvency/DomainTxs.antt =====
-- About `applyTransfer`, `applyRegisterDomain` and `applyDeactivateDomain` and the invariant.
use l1_modular_blockchain.Common.{
  ℕ, ◌≡◌, ◌≢◌, sym, subst, String, Bool, true, false, ◌&&◌, some, List, [], ◌∷◌, arith, All-map,
  All-select, select_test, Bool-cases, inl, inr, signed,
}
use l1_modular_blockchain.Int64.{ℤ}
use l1_modular_blockchain.Types.{
  Service, RequestStatus, refunded, no_coin, VerificationDomain, MsgTransfer, MsgRegisterDomain,
  MsgDeactivateDomain,
}
use l1_modular_blockchain.Outcome.{
  Ends, returns, Any, Never, ◌then_by◌, past_guard, past_check, or_fail-Ends, Any-of_Never, weaken,
}
use l1_modular_blockchain.Bolt.{Bolt}
use l1_modular_blockchain.State.{World, module_escrow_addr, rows, put_domain}
use l1_modular_blockchain.State.Bank.Funds.{Holds-le}
use l1_modular_blockchain.State.Bank.Payments.{pay_out_coin, send}
use l1_modular_blockchain.Resolution.Sweep.{sweep}
use l1_modular_blockchain.Resolution.Void.{execute_void}
use l1_modular_blockchain.Tx.Accounts.{apply_transfer}
use l1_modular_blockchain.Tx.Domains.{
  is_open, open_on, close_service, close_services, apply_register_domain, apply_deactivate_domain,
}
use l1_modular_blockchain.Solvency.Stake.{IsSigner, Inv, locked, locked_in}
use l1_modular_blockchain.Solvency.Close.{service_owner, service_stored}
use l1_modular_blockchain.Solvency.Voids.{execute_void-Resolves}
use l1_modular_blockchain.Solvency.Sweeps.{select-Distinct, sweep-Swept, Swept}
use l1_modular_blockchain.Solvency.Finality.{Keeps, Swept-Keeps}
use l1_modular_blockchain.Solvency.Close.{is_terminal}
use l1_modular_blockchain.Solvency.Updates.{update_service-Inv, rebond}
use l1_modular_blockchain.Solvency.ServiceTxs.{put_service-Ends}
use l1_modular_blockchain.Solvency.Blocks.{rows_in_order, rows_in_store}

open_lasts : (s : RequestStatus) → is_open s ≡ true → is_terminal s ≡ false
open_lasts s h = ground arith

both_true : (a b : Bool) → (a && b) ≡ true → b ≡ true
both_true a b h = ground arith

module _ ⦃bolt : Bolt⦄ {total : ℕ} where
  open bolt use {Table, Dict, get, put, accepts}

  -- The invariant does not speak of domains and their authority.
  pub put_domain-Inv :
      (w : World) (d : VerificationDomain) → Inv total w → Inv total (put_domain w d)
  put_domain-Inv w d v = record {
    funded = v.funded;
    sound = v.sound;
    owned = v.owned;
    fresh_requests = v.fresh_requests;
    fresh_services = v.fresh_services;
  }

  authority-Inv :
      (w : World) (auth : String) (next : ℕ)
      → Inv total w
      → Inv total (record w { authority = auth; next_domain_id = next })
  authority-Inv w auth next v = record {
    funded = v.funded;
    sound = v.sound;
    owned = v.owned;
    fresh_requests = v.fresh_requests;
    fresh_services = v.fresh_services;
  }

  close_service-Inv :
      (w : World) (v : Inv total w) (id : ℕ) (svc : Service) (height : ℤ)
      → get w.services id ≡ some svc
      → Ends Any (λ x. Inv total x.0) (close_service w svc height)
  unfolding close_service
  close_service-Inv w v id svc height e = elim (Bool-cases svc.active) [
    | inl live ↦
        let here = service_stored w v id svc e in
        let owner = service_owner w v id svc e in
        let svc' = record svc { active = false; registration_bond = no_coin } in
        rw live (
          Any-of_Never (
            pay_out_coin total 0 (locked_in w.requests (put w.services svc.id svc'))
              svc.registration_bond w.accounts svc.owner owner
              (Holds-le _ (omega (arith, rebond w v svc svc' here)) v.funded))
          then_by λ accs h. put_service-Ends _ _ then_by λ next n.
              returns (
                subst (Inv total) (sym n.1)
                  (update_service-Inv w v svc svc' accs n.0 here owner h)))
    | inr closed ↦ rw closed (returns v)
  ]

  pub close_services-Inv :
      (w : World) (v : Inv total w) (ids : List ℕ) (height : ℤ)
      → Ends Any (λ x. Inv total x.0) (close_services w ids height)
  unfolding close_services
  close_services-Inv w v [] height = returns v
  close_services-Inv w v (id ∷ ids) height =
      or_fail-Ends {P = λ svc. get w.services id ≡ some svc} _ _ (λ svc e. e) then_by λ svc e.
      close_service-Inv w v id svc height e then_by λ x inv.
      close_services-Inv x.0 inv ids height then_by λ y inv'. returns inv'

  pub void_open-Swept :
      (w : World) (v : Inv total w) (svcs : List ℕ) (height : ℤ)
      → Ends Never
          (λ x. Swept total w (open_on svcs (rows w.requests)) refunded x.0 × Keeps w x.0)
          (sweep execute_void w (open_on svcs (rows w.requests)) height)
  void_open-Swept w v svcs height =
      let rs = open_on svcs (rows w.requests) in
      let here = All-select _ _ (rows w.requests) (rows_in_store w v) in
      let live = All-map _ _ rs (λ r h. both_true _ _ h) (select_test _ (rows w.requests)) in
      weaken
        (λ x s.
          (s, Swept-Keeps w x.0 rs s here (All-map _ _ rs (λ r h. open_lasts r.status h) live)))
        (sweep-Swept (λ r. is_open r.status ≡ true) refunded execute_void height
          (λ x i r here p. execute_void-Resolves x i r here height p) rs w v here
          (select-Distinct _ 0 (rows w.requests) (rows_in_order w v)) live)

module _ ⦃bolt : Bolt⦄ {total : ℕ} (w : World) (v : Inv total w) (signer : String)
    (g : IsSigner signer) where
  pub apply_transfer-Inv : (msg : MsgTransfer) → Ends Any (Inv total) (apply_transfer w signer msg)
  unfolding apply_transfer
  apply_transfer-Inv msg = past_guard _ _ λ from. past_guard _ _ λ _.
      send total 0 (locked w) msg.amount.amount w.accounts msg.from msg.to
        (subst (λ a. module_escrow_addr ≢ a) (sym (signed msg.from signer from)) g.apart) v.funded
      then_by λ accs h. returns (record {
        funded = h;
        sound = v.sound;
        owned = v.owned;
        fresh_requests = v.fresh_requests;
        fresh_services = v.fresh_services;
      })

  pub apply_register_domain-Inv :
      (msg : MsgRegisterDomain) (height : ℤ)
      → Ends Any (λ x. Inv total x.0) (apply_register_domain w signer msg height)
  unfolding apply_register_domain
  apply_register_domain-Inv msg height = past_guard _ _ λ _. past_guard _ _ λ _.
      past_guard _ _ λ _. past_guard _ _ λ _. returns (put_domain-Inv _ _ (authority-Inv w _ _ v))

  pub apply_deactivate_domain-Inv :
      (msg : MsgDeactivateDomain) (height : ℤ)
      → Ends Any (λ x. Inv total x.0) (apply_deactivate_domain w signer msg height)
  unfolding apply_deactivate_domain
  apply_deactivate_domain-Inv msg height = past_check _ (
      or_fail-Ends {P = λ d. Unit {0}} _ _ (λ d e. tt) then_by λ d _. past_guard _ _ λ _.
        close_services-Inv _ (put_domain-Inv w (record d { active = false }) v) _ height
        then_by λ x inv.
            Any-of_Never (void_open-Swept x.0 inv _ height) then_by λ y swept. returns swept.0.inv)
