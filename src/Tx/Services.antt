-- ===== src/Tx/Services.antt =====
-- `applyRegisterService`, `applyUpdateService` and `applyDeactivateService`.
use l1_modular_blockchain.Common.{
  ℕ, ◌+◌, ◌%◌, ◌^◌, String, Bool, true, false, not, ◌||◌, ◌==◌, if◌then◌else◌, str_eq, is_some,
}
use l1_modular_blockchain.Int64.{ℤ, leb_ℤ, sub_int64}
use l1_modular_blockchain.Types.{
  no_coin, is_positive, is_valid, is_lt, Service, Params, MsgRegisterService, MsgUpdateService,
  MsgDeactivateService, Event, service_registered, service_updated, service_deactivated,
  signer_mismatch, empty_name, zero_price, duplicate_name, domain_inactive, not_owner,
  service_inactive, service_already_inactive,
}
use l1_modular_blockchain.Outcome.{Outcome, ok, ◌>>=◌, ◌>>◌, refuse_if}
use l1_modular_blockchain.Bolt.{Bolt}
use l1_modular_blockchain.State.{
  World, module_escrow_addr, module_treasury_addr, put_service, get_service, get_domain,
}
use l1_modular_blockchain.State.Bank.{move_coin}

module _ ⦃bolt : Bolt⦄ where
  open bolt use {Dict, find}

  -- A referenced domain exists and is active.
  unfoldable pub check_active_domain : World → ℕ → Outcome (Unit {0})
  check_active_domain w id =
      if id == 0 then ok tt else (get_domain w id >>= λ d. refuse_if (not d.active) domain_inactive)

  unfoldable pub apply_register_service :
      World → String → MsgRegisterService → ℤ → Outcome (World × ℕ × Event)
  apply_register_service w signer msg height = do
    refuse_if (not (str_eq msg.owner signer)) signer_mismatch
    refuse_if (str_eq msg.name "") empty_name
    refuse_if (not (is_positive msg.price)) zero_price
    refuse_if (is_some (find w.svc_by_name msg.name)) duplicate_name
    check_active_domain w msg.verification_domain_id
    locked ← move_coin w.accounts signer module_escrow_addr w.params.service_registration_bond
    next ←
        put_service (record w { accounts = locked; next_svc_id = (w.next_svc_id + 1) % 2 ^ 64 })
          (record {
            id = w.next_svc_id;
            owner = msg.owner;
            name = msg.name;
            description = msg.description;
            price = msg.price;
            verification_domain_id = msg.verification_domain_id;
            active = true;
            created_at_height = height;
            registration_bond = w.params.service_registration_bond;
          })
    ok (
      next,
      w.next_svc_id,
      record {
        block_height = height;
        payload = service_registered (record {
          service_id = w.next_svc_id;
          owner = msg.owner;
          name = msg.name;
          description = msg.description;
          price = msg.price;
        });
      },
    )

  unfoldable pub apply_update_service :
      World → String → MsgUpdateService → ℤ → Outcome (World × Event)
  apply_update_service w signer msg height = do
    refuse_if (not (str_eq msg.owner signer)) signer_mismatch
    svc ← get_service w msg.service_id
    refuse_if (not (str_eq svc.owner signer)) not_owner
    refuse_if (not svc.active) service_inactive
    refuse_if (not (is_valid msg.price) || not (is_positive msg.price)) zero_price
    refuse_if (is_lt msg.price w.params.min_service_price) zero_price
    next ← put_service w (record svc { description = msg.description; price = msg.price })
    ok (
      next,
      record {
        block_height = height;
        payload = service_updated (record {
          service_id = svc.id;
          owner = svc.owner;
          description = msg.description;
          price = msg.price;
        });
      },
    )

  -- Has the service lived past the minimum, so that its bond comes back?
  unfoldable pub refund_due : Params → Service → ℤ → Bool
  refund_due params svc height =
      leb_ℤ params.min_service_lifetime_blocks (sub_int64 height svc.created_at_height)

  unfoldable pub apply_deactivate_service :
      World → String → MsgDeactivateService → ℤ → Outcome (World × Event)
  apply_deactivate_service w signer msg height = do
    refuse_if (not (str_eq msg.owner signer)) signer_mismatch
    svc ← get_service w msg.service_id
    refuse_if (not (str_eq svc.owner signer)) not_owner
    refuse_if (not svc.active) service_already_inactive
    let due = refund_due w.params svc height
    released ←
        move_coin w.accounts module_escrow_addr (if due then svc.owner else module_treasury_addr)
          svc.registration_bond
    next ←
        put_service (record w { accounts = released })
          (record svc { active = false; registration_bond = no_coin })
    ok (
      next,
      record {
        block_height = height;
        payload = service_deactivated (record {
          service_id = svc.id;
          owner = svc.owner;
          bond_refunded =
              if is_positive svc.registration_bond
              then (if due then svc.registration_bond else no_coin)
              else no_coin;
        });
      },
    )
