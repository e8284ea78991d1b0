-- ===== src/Tx/Requests.antt =====
-- `applyRequestInference` and `applySubmitResult`.
use l1_modular_blockchain.Common.{
  ℕ, ◌+◌, ◌%◌, ◌^◌, String, Bool, true, false, not, ◌||◌, none, some, List, [], ◌∷◌, ltb, ◌==◌,
  if◌then◌else◌, str_eq,
}
use l1_modular_blockchain.Int64.{ℤ, pos, negsuc, leb_ℤ, ltb_ℤ, add_int64}
use l1_modular_blockchain.Types.{
  is_positive, InferenceRequest, RequestStatus, pending, submitted, challenged, finalized,
  MsgRequestInference, MsgSubmitResult, Event, inference_requested, result_submitted,
  request_finalized, signer_mismatch, service_inactive, insufficient_price, invalid_deadline,
  request_not_pending, wrong_provider, input_hash_mismatch,
}
use l1_modular_blockchain.Outcome.{Outcome, ok, ◌>>=◌, ◌>>◌, refuse_if}
use l1_modular_blockchain.Bolt.{Bolt}
use l1_modular_blockchain.State.{World, module_escrow_addr, get_service, get_request, put_request}
use l1_modular_blockchain.State.Bank.{move, move_coin, move_bond, moved_bond}
use l1_modular_blockchain.Tx.Attest.{check_attestation}

abbrev pub is_zero : ℤ → Bool
is_zero (pos n) = n == 0
is_zero (negsuc n) = false

abbrev pub is_pending : RequestStatus → Bool
is_pending pending = true
is_pending _ = false

abbrev pub is_submitted : RequestStatus → Bool
is_submitted submitted = true
is_submitted _ = false

abbrev pub is_challenged : RequestStatus → Bool
is_challenged challenged = true
is_challenged _ = false

abbrev pub submission_event : ℕ → String → MsgSubmitResult → ℤ → Event
submission_event id signer msg height = record {
  block_height = height;
  payload = result_submitted (record {
    request_id = id;
    provider = signer;
    output_hash = msg.result.output_hash;
    output_uri = msg.result.output_uri;
  });
}

module _ ⦃bolt : Bolt⦄ where
  open bolt use {Dict}

  unfoldable pub apply_request_inference :
      World → String → MsgRequestInference → ℤ → Outcome (World × ℕ × Event)
  apply_request_inference w signer msg height = do
    refuse_if (not (str_eq msg.requester signer)) signer_mismatch
    svc ← get_service w msg.service_id
    refuse_if (not svc.active) service_inactive
    refuse_if
        (not (str_eq msg.max_price.denom svc.price.denom)
          || ltb msg.max_price.amount svc.price.amount)
        insufficient_price
    let deadline =
        if is_zero msg.deadline_height
        then add_int64 height w.params.max_request_deadline_blocks
        else msg.deadline_height
    refuse_if (leb_ℤ deadline height) invalid_deadline
    locked ← move w.accounts signer module_escrow_addr svc.price.amount
    ok (
      put_request (record w { accounts = locked; next_req_id = (w.next_req_id + 1) % 2 ^ 64 })
          (record {
            id = w.next_req_id;
            service_id = msg.service_id;
            requester = signer;
            input_hash = msg.input_hash;
            input_uri = msg.input_uri;
            input_text = msg.input_text;
            escrow = svc.price;
            deadline_height = deadline;
            status = pending;
            created_at_height = height;
            finalized_at_height = pos 0;
            result = none;
            paid = none;
            submitted_at_height = pos 0;
            challenges = [];
            provider_bond = none;
            vouchers = [];
          }),
      w.next_req_id,
      record {
        block_height = height;
        payload = inference_requested (record {
          request_id = w.next_req_id;
          service_id = msg.service_id;
          requester = signer;
          input_hash = msg.input_hash;
          input_uri = msg.input_uri;
          input_text = msg.input_text;
          escrow = svc.price;
          deadline_height = deadline;
        });
      },
    )

  -- The end of `applySubmitResult`: with no challenge window the request is final at once.
  unfoldable pub finalize_now :
      World → String → InferenceRequest → ℤ → Event → Outcome (World × Bool × List Event)
  finalize_now w signer req height submission = do
    paid ← move w.accounts module_escrow_addr signer req.escrow.amount
    released ← move_bond paid module_escrow_addr signer req.provider_bond
    ok (
      put_request (record w { accounts = released })
          (record req { status = finalized; finalized_at_height = height; paid = some req.escrow }),
      true,
      submission
          ∷ record {
            block_height = height;
            payload = request_finalized (record {
              request_id = req.id;
              provider = signer;
              paid = req.escrow;
              provider_bond_returned = moved_bond req.provider_bond;
            });
          }
          ∷ [],
    )

  -- The request with the result and, if one is asked for, the provider's bond.
  abbrev pub file_result : World → InferenceRequest → MsgSubmitResult → ℤ → InferenceRequest
  file_result w req msg height = record req {
    provider_bond =
        if is_positive w.params.provider_bond_amount
        then some w.params.provider_bond_amount
        else req.provider_bond;
    result = some msg.result;
    status = submitted;
    submitted_at_height = height;
  }

  unfoldable pub conclude :
      World → String → InferenceRequest → ℤ → Event → Outcome (World × Bool × List Event)
  conclude w signer filed height submission =
      if is_zero w.params.challenge_window_blocks
      then finalize_now w signer filed height submission
      else ok (put_request w filed, false, submission ∷ [])

  unfoldable pub apply_submit_result :
      World → String → MsgSubmitResult → ℤ → Outcome (World × Bool × List Event)
  apply_submit_result w signer msg height = do
    refuse_if (not (str_eq msg.provider signer)) signer_mismatch
    req ← get_request w msg.request_id
    refuse_if (not (is_pending req.status)) request_not_pending
    svc ← get_service w req.service_id
    refuse_if (not (str_eq signer svc.owner)) wrong_provider
    refuse_if (not (str_eq msg.result.attestation.input_hash req.input_hash)) input_hash_mismatch
    refuse_if (ltb_ℤ req.deadline_height height) invalid_deadline
    check_attestation w svc msg.result.attestation
    locked ← move_coin w.accounts signer module_escrow_addr w.params.provider_bond_amount
    conclude (record w { accounts = locked }) signer (file_result w req msg height) height
        (submission_event req.id signer msg height)
