-- ===== src/Solvency/RequestTxs.antt =====
-- About `applyRequestInference` and `applySubmitResult` and the invariant.
use l1_modular_blockchain.Common.{
  ℕ, ◌+◌, ◌^◌, ◌<◌, ◌≡◌, refl, ap, subst, String, false, not, Option, some, none, arith, is_some,
  if◌then◌else◌, Bool-cases, inl, inr,
}
use l1_modular_blockchain.Int64.{ℤ}
use l1_modular_blockchain.Types.{
  Coin, is_positive, InferenceRequest, RequestStatus, pending, submitted, finalized,
  MsgRequestInference, MsgSubmitResult, Event,
}
use l1_modular_blockchain.Outcome.{
  Ends, returns, Any, ◌then_by◌, past_guard, past_check, or_fail-Ends, Any-of_Never,
}
use l1_modular_blockchain.Bolt.{Bolt}
use l1_modular_blockchain.State.{World, Account}
use l1_modular_blockchain.State.Bank.Funds.{Holds, Holds-le}
use l1_modular_blockchain.State.Bank.Payments.{
  lock_in, lock_coin, pay_out, pay_out_bond, bond_amount,
}
use l1_modular_blockchain.Tx.Requests.{
  is_pending, is_zero, apply_request_inference, finalize_now, conclude, file_result,
  submission_event, apply_submit_result,
}
use l1_modular_blockchain.Solvency.Stake.{
  IsSigner, Inv, IsSound, HasShape, stake_in, locked, locked_in,
}
use l1_modular_blockchain.Solvency.Close.{request-IsSound, request_stored}
use l1_modular_blockchain.Solvency.Updates.{update_request-Inv, relock, add_request-Inv}

is_pending→eq : (s : RequestStatus) → not (is_pending s) ≡ false → s ≡ pending
is_pending→eq s h = ground arith

filed_bond_amount :
    (bond : Coin) (old : Option Coin)
    → old ≡ none
    → bond_amount (if is_positive bond then some bond else old) ≡ bond.amount
filed_bond_amount bond old h = ground arith

module _ ⦃bolt : Bolt⦄ {total : ℕ} (w : World) (v : Inv total w) (signer : String)
    (g : IsSigner signer) (height : ℤ) where
  open bolt use {Table, Dict, get, put, accepts}

  pub apply_request_inference-Inv :
      (msg : MsgRequestInference)
      → w.next_req_id + 1 < 2 ^ 64
      → Ends Any (λ x. Inv total x.0) (apply_request_inference w signer msg height)
  unfolding apply_request_inference
  apply_request_inference-Inv msg room = past_guard _ _ λ _.
      or_fail-Ends {P = λ svc. get w.services msg.service_id ≡ some svc} _ _ (λ svc e. e)
      then_by λ svc e. past_guard _ _ λ _. past_guard _ _ λ _. past_guard _ _ λ _.
        lock_in total 0 (locked w) svc.price.amount w.accounts signer g.apart v.funded
        then_by λ accs h. returns (
            add_request-Inv w v _ accs refl room
              (record { served = ap is_some e; payable = g.storable; shaped = (refl, refl, refl) })
              h)

  -- `req` is stored, and `r` is what has been filed for it.
  module _ (req r : InferenceRequest) (here : get w.requests r.id ≡ some req)
      (status : r.status ≡ submitted) (sound : IsSound w.services r) (accs : Dict Account)
      (h : Holds total 0 (locked_in (put w.requests r.id r) w.services) accs) where
    finalize_now-Inv :
        (event : Event)
        → Ends Any
            (λ x. Inv total x.0)
            (finalize_now (record w { accounts = accs }) signer r height event)
    unfolding finalize_now
    finalize_now-Inv event =
        let r' = record r {
          status = finalized;
          finalized_at_height = height;
          paid = some r.escrow;
        } in
        let e = locked_in (put w.requests r.id r') w.services in
        Any-of_Never (
          pay_out total 0 (e + bond_amount r.provider_bond) r.escrow.amount accs signer g.storable (
            Holds-le _
              (omega (arith, relock w v req r here, relock w v req r' here, ap (stake_in r) status))
              h))
        then_by λ paid p.
            Any-of_Never (pay_out_bond total 0 e r.provider_bond paid signer g.storable p)
            then_by λ released q. returns (
                update_request-Inv w v req r' released here
                  (record { served = sound.served; payable = sound.payable; shaped = tt }) q)

    conclude-Inv :
        (event : Event)
        → Ends Any
            (λ x. Inv total x.0)
            (conclude (record w { accounts = accs }) signer r height event)
    unfolding conclude
    conclude-Inv event = elim (Bool-cases (is_zero w.params.challenge_window_blocks)) [
      | inl at_once ↦ rw at_once (finalize_now-Inv event)
      | inr later ↦ rw later (returns (update_request-Inv w v req r accs here sound h))
    ]

  pub apply_submit_result-Inv :
      (msg : MsgSubmitResult)
      → Ends Any (λ x. Inv total x.0) (apply_submit_result w signer msg height)
  unfolding apply_submit_result
  apply_submit_result-Inv msg = past_guard _ _ λ _.
      or_fail-Ends {P = λ r. get w.requests msg.request_id ≡ some r} _ _ (λ r e. e) then_by λ req e.
      past_guard _ _ λ status.
        or_fail-Ends {P = λ svc. get w.services req.service_id ≡ some svc} _ _ (λ svc e. e)
        then_by λ svc served. past_guard _ _ λ _. past_guard _ _ λ _. past_guard _ _ λ _.
          let filed = file_result w req msg height in
          let here = request_stored w v msg.request_id req e in
          let old = (request-IsSound w v msg.request_id req e).1 in
          let open_ = is_pending→eq req.status status in
          let shape = subst (HasShape req) open_ old.shaped in
          past_check _ (
            lock_coin total 0 (locked w) w.params.provider_bond_amount w.accounts signer g.apart
              v.funded
            then_by λ accs h.
                conclude-Inv req filed here refl
                  (record {
                    served = old.served;
                    payable = old.payable;
                    shaped = (refl, shape.1, shape.2);
                  })
                  accs
                  (Holds-le _
                    (omega (
                      arith,
                      relock w v req filed here,
                      ap (stake_in req) open_,
                      filed_bond_amount w.params.provider_bond_amount req.provider_bond shape.0,
                    ))
                    h)
                  (submission_event req.id signer msg height))
