-- ===== src/Tx/Domains.antt =====
-- `applyRegisterDomain` and `applyDeactivateDomain`.
use l1_modular_blockchain.Common.{
  select, ◌&&◌, ℕ, ◌+◌, ◌%◌, ◌^◌, String, Bool, true, false, not, ◌||◌, List, [], ◌∷◌, ◌++◌, length,
  ◌==◌, if◌then◌else◌, str_eq,
}
use l1_modular_blockchain.Int64.{ℤ, pos, ltb_ℤ}
use l1_modular_blockchain.Types.{
  no_coin, Service, InferenceRequest, RequestStatus, pending, submitted, challenged,
  MsgRegisterDomain, MsgDeactivateDomain, Event, domain_registered, domain_deactivated,
  service_deactivated, unauthorized, signer_mismatch, domain_fields_required, negative_margin,
  domain_inactive,
}
use l1_modular_blockchain.Outcome.{Outcome, ok, ◌>>=◌, ◌>>◌, refuse_if}
use l1_modular_blockchain.Bolt.{Bolt}
use l1_modular_blockchain.State.{
  World, module_escrow_addr, put_service, get_service, put_domain, get_domain, rows,
}
use l1_modular_blockchain.State.Bank.{move_coin, moved_coin}
use l1_modular_blockchain.Resolution.Void.{execute_void}
use l1_modular_blockchain.Resolution.Sweep.{sweep}
use l1_modular_blockchain.Tx.Disputes.{check_authority}

-- The ids of the services that are bound to a domain.
abbrev pub bound_to : ℕ → List Service → List ℕ
bound_to d [] = []
bound_to d (svc ∷ svcs) =
    if svc.verification_domain_id == d then svc.id ∷ bound_to d svcs else bound_to d svcs

abbrev pub contains : List ℕ → ℕ → Bool
contains [] i = false
contains (j ∷ is) i = if j == i then true else contains is i

abbrev pub is_open : RequestStatus → Bool
is_open pending = true
is_open submitted = true
is_open challenged = true
is_open _ = false

-- The open requests on the given services, in the cursor's order.
abbrev pub open_on : List ℕ → List InferenceRequest → List InferenceRequest
open_on svcs = select λ r. contains svcs r.service_id && is_open r.status

module _ ⦃bolt : Bolt⦄ where
  open bolt use {Dict}

  unfoldable pub apply_register_domain :
      World → String → MsgRegisterDomain → ℤ → Outcome (World × ℕ × Event)
  apply_register_domain w signer msg height = do
    let auth = if str_eq w.authority "" then signer else w.authority
    refuse_if (not (str_eq signer auth)) unauthorized
    refuse_if (not (str_eq msg.authority signer)) signer_mismatch
    refuse_if
        (str_eq msg.model_sha256 ""
          || str_eq msg.runtime_id ""
          || str_eq msg.hardware_tag ""
          || str_eq msg.precision "")
        domain_fields_required
    refuse_if (ltb_ℤ msg.voucher_margin (pos 0)) negative_margin
    ok (
      put_domain (record w { authority = auth; next_domain_id = (w.next_domain_id + 1) % 2 ^ 64 })
          (record {
            id = w.next_domain_id;
            model_sha256 = msg.model_sha256;
            runtime_id = msg.runtime_id;
            hardware_tag = msg.hardware_tag;
            precision = msg.precision;
            tokenizer_id = msg.tokenizer_id;
            description = msg.description;
            registered_at = height;
            active = true;
            voucher_margin = msg.voucher_margin;
          }),
      w.next_domain_id,
      record {
        block_height = height;
        payload = domain_registered (record {
          domain_id = w.next_domain_id;
          model_sha256 = msg.model_sha256;
          runtime_id = msg.runtime_id;
          hardware_tag = msg.hardware_tag;
          precision = msg.precision;
          tokenizer_id = msg.tokenizer_id;
          description = msg.description;
        });
      },
    )

  -- Pass 2 at one service: an active one is deactivated and its bond refunded in full.
  unfoldable pub close_service : World → Service → ℤ → Outcome (World × List Event)
  close_service w svc height =
      if svc.active
      then (move_coin w.accounts module_escrow_addr svc.owner svc.registration_bond >>= λ refund.
          put_service (record w { accounts = refund })
            (record svc { active = false; registration_bond = no_coin })
          >>= λ next. ok (
            next,
            record {
              block_height = height;
              payload = service_deactivated (record {
                service_id = svc.id;
                owner = svc.owner;
                bond_refunded = moved_coin svc.registration_bond;
              });
            }
                ∷ [],
          ))
      else ok (w, [])

  unfoldable pub close_services : World → List ℕ → ℤ → Outcome (World × List Event)
  close_services w [] height = ok (w, [])
  close_services w (sid ∷ sids) height = do
    svc ← get_service w sid
    (w', closed) ← close_service w svc height
    (w'', others) ← close_services w' sids height
    ok (w'', closed ++ others)

  unfoldable pub apply_deactivate_domain :
      World → String → MsgDeactivateDomain → ℤ → Outcome (World × List Event)
  apply_deactivate_domain w signer msg height = do
    check_authority w signer msg.authority
    d ← get_domain w msg.domain_id
    refuse_if (not d.active) domain_inactive
    let w' = put_domain w (record d { active = false })
    let affected = bound_to d.id (rows w'.services)
    (closed, service_events) ← close_services w' affected height
    (voided, void_events) ←
        sweep execute_void closed (open_on affected (rows closed.requests)) height
    ok (
      voided,
      record {
        block_height = height;
        payload = domain_deactivated (record {
          domain_id = d.id;
          authority = signer;
          services_deactivated = length service_events;
          requests_voided = length void_events;
        });
      }
          ∷ (service_events ++ void_events),
    )
