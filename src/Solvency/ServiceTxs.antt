-- ===== src/Solvency/ServiceTxs.antt =====
-- About `applyRegisterService`, `applyUpdateService` and `applyDeactivateService` and the
-- invariant.
use l1_modular_blockchain.Common.{
  ℕ, ◌+◌, ◌^◌, ◌<◌, ◌≡◌, refl, sym, subst, String, Bool, true, false, some, arith, signed,
  if◌then◌else◌, Bool-cases, inl, inr,
}
use l1_modular_blockchain.Int64.{ℤ}
use l1_modular_blockchain.Types.{
  Service, no_coin, MsgRegisterService, MsgUpdateService, MsgDeactivateService,
}
use l1_modular_blockchain.Outcome.{
  Ends, returns, fails, Any, ◌then_by◌, past_guard, past_check, or_fail-Ends, Any-of_Never,
}
use l1_modular_blockchain.Bolt.{Bolt}
use l1_modular_blockchain.State.{World, module_treasury_addr, put_service}
use l1_modular_blockchain.State.Bank.Funds.{Holds-le, accepts_treasury}
use l1_modular_blockchain.State.Bank.Payments.{lock_coin, pay_out_coin}
use l1_modular_blockchain.Tx.Services.{
  apply_register_service, apply_update_service, apply_deactivate_service, refund_due,
}
use l1_modular_blockchain.Solvency.Stake.{IsSigner, Inv, locked, locked_in}
use l1_modular_blockchain.Solvency.Close.{service_owner, service_stored}
use l1_modular_blockchain.Solvency.Updates.{update_service-Inv, rebond, add_service-Inv}

module _ ⦃bolt : Bolt⦄ where
  open bolt use {Table, Dict, get, put, accepts}

  payee_accepts :
      (due : Bool) (owner : String)
      → accepts owner ≡ true
      → accepts (if due then owner else module_treasury_addr) ≡ true
  payee_accepts true owner h = h
  payee_accepts false owner h = accepts_treasury

  pub put_service-Ends :
      (w : World) (svc : Service)
      → Ends Any
          (λ w'.
            (names : Dict ℕ) × (w'
              ≡ record w { services = put w.services svc.id svc; svc_by_name = names }))
          (put_service w svc)
  unfolding put_service
  put_service-Ends w svc = elim (Bool-cases (accepts svc.name)) [
    | inl taken ↦ rw taken (returns (_, refl))
    | inr refused ↦ rw refused (fails tt)
  ]

module _ ⦃bolt : Bolt⦄ {total : ℕ} (w : World) (v : Inv total w) (signer : String)
    (g : IsSigner signer) (height : ℤ) where
  open bolt use {Table, Dict, get, put, accepts}

  pub apply_register_service-Inv :
      (msg : MsgRegisterService)
      → w.next_svc_id + 1 < 2 ^ 64
      → Ends Any (λ x. Inv total x.0) (apply_register_service w signer msg height)
  unfolding apply_register_service
  apply_register_service-Inv msg room = past_guard _ _ λ owner. past_guard _ _ λ _.
      past_guard _ _ λ _. past_guard _ _ λ _. past_check _ (
        lock_coin total 0 (locked w) w.params.service_registration_bond w.accounts signer g.apart
          v.funded
        then_by λ accs h. put_service-Ends _ _ then_by λ next n. returns (
            subst (Inv total) (sym n.1) (
              add_service-Inv w v _ accs n.0 refl room
                (subst (λ a. accepts a ≡ true) (sym (signed msg.owner signer owner)) g.storable)
                h)))

  pub apply_update_service-Inv :
      (msg : MsgUpdateService)
      → Ends Any (λ x. Inv total x.0) (apply_update_service w signer msg height)
  unfolding apply_update_service
  apply_update_service-Inv msg = past_guard _ _ λ _.
      or_fail-Ends {P = λ svc. get w.services msg.service_id ≡ some svc} _ _ (λ svc e. e)
      then_by λ svc e. past_guard _ _ λ _. past_guard _ _ λ _. past_guard _ _ λ _.
        past_guard _ _ λ _. put_service-Ends _ _ then_by λ next n.
        let here = service_stored w v msg.service_id svc e in
        let svc' = record svc { description = msg.description; price = msg.price } in
        returns (
          subst (Inv total) (sym n.1) (
            update_service-Inv w v svc svc' w.accounts n.0 here
              (service_owner w v msg.service_id svc e)
              (Holds-le _ (omega (arith, rebond w v svc svc' here)) v.funded)))

  pub apply_deactivate_service-Inv :
      (msg : MsgDeactivateService)
      → Ends Any (λ x. Inv total x.0) (apply_deactivate_service w signer msg height)
  unfolding apply_deactivate_service
  apply_deactivate_service-Inv msg = past_guard _ _ λ _.
      or_fail-Ends {P = λ svc. get w.services msg.service_id ≡ some svc} _ _ (λ svc e. e)
      then_by λ svc e. past_guard _ _ λ _. past_guard _ _ λ _.
        let here = service_stored w v msg.service_id svc e in
        let owner = service_owner w v msg.service_id svc e in
        let svc' = record svc { active = false; registration_bond = no_coin } in
        Any-of_Never (
          pay_out_coin total 0 (locked_in w.requests (put w.services svc.id svc'))
            svc.registration_bond w.accounts
            (if refund_due w.params svc height then svc.owner else module_treasury_addr)
            (payee_accepts (refund_due w.params svc height) svc.owner owner)
            (Holds-le _ (omega (arith, rebond w v svc svc' here)) v.funded))
        then_by λ accs h. put_service-Ends _ _ then_by λ next n.
            returns
              (subst (Inv total) (sym n.1) (update_service-Inv w v svc svc' accs n.0 here owner h))
