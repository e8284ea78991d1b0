-- ===== src/Solvency/DisputeTxs.antt =====
-- About `applyChallenge`, `applyVouch` and `applyResolveChallenge` and the invariant.
use l1_modular_blockchain.Common.{
  ℕ, ◌≡◌, refl, sym, ap, subst, String, Bool, true, false, not, some, List, [], ◌∷◌, ◌++◌, arith,
  All, All-append, sum_by-append, if◌then◌else◌,
}
use l1_modular_blockchain.Int64.{ℤ}
use l1_modular_blockchain.Types.{
  Error, InferenceRequest, RequestStatus, submitted, challenged, Challenge, Voucher, MsgChallenge,
  MsgVouch, MsgResolveChallenge,
}
use l1_modular_blockchain.Outcome.{
  err, Ends, returns, fails, Any, ◌then_by◌, past_guard, past_check, or_fail-Ends, Any-of_Never,
  weaken,
}
use l1_modular_blockchain.Bolt.{Bolt}
use l1_modular_blockchain.State.{World}
use l1_modular_blockchain.State.Bank.Funds.{Holds-le}
use l1_modular_blockchain.State.Bank.Payments.{lock_coin}
use l1_modular_blockchain.Resolution.Slash.{execute_slash}
use l1_modular_blockchain.Resolution.Dismiss.{execute_dismiss}
use l1_modular_blockchain.Tx.Requests.{is_submitted, is_challenged}
use l1_modular_blockchain.Tx.Disputes.{
  voucher_bond, apply_challenge, apply_vouch, apply_resolve_challenge,
}
use l1_modular_blockchain.Solvency.Stake.{
  IsSigner, IsVoucher, Inv, HasShape, OneChallenge, stake_in, locked, first_bond, voucher_bonds,
}
use l1_modular_blockchain.Solvency.Close.{request-IsSound, request_stored}
use l1_modular_blockchain.Solvency.Outcomes.{execute_slash-Resolves, execute_dismiss-Resolves}
use l1_modular_blockchain.Solvency.Updates.{update_request-Inv, relock}

is_submitted→eq : (s : RequestStatus) → not (is_submitted s) ≡ false → s ≡ submitted
is_submitted→eq s h = ground arith

is_challenged→eq : (s : RequestStatus) → not (is_challenged s) ≡ false → s ≡ challenged
is_challenged→eq s h = ground arith

module _ ⦃bolt : Bolt⦄ where
  open bolt use {accepts}

  -- The first challenge of a request that had none.
  first_filed :
      (cs : List Challenge) (c : Challenge)
      → cs ≡ []
      → accepts c.challenger ≡ true
      → OneChallenge (cs ++ c ∷ []) × (first_bond (cs ++ c ∷ []) ≡ c.bond.amount)
  first_filed [] c e h = (h, refl)
  first_filed (d ∷ cs) c e h = cc

module _ ⦃bolt : Bolt⦄ {total : ℕ} (w : World) (v : Inv total w) (signer : String)
    (g : IsSigner signer) (height : ℤ) where
  open bolt use {Table, Dict, get, put, accepts}

  pub apply_challenge-Inv :
      (msg : MsgChallenge) → Ends Any (λ x. Inv total x.0) (apply_challenge w signer msg height)
  unfolding apply_challenge
  apply_challenge-Inv msg = past_guard _ _ λ _.
      or_fail-Ends {P = λ r. get w.requests msg.request_id ≡ some r} _ _ (λ r e. e) then_by λ req e.
      past_guard _ _ λ status. past_guard _ _ λ _. past_guard _ _ λ _.
        or_fail-Ends {P = λ result. Unit {0}} _ _ (λ result e. tt) then_by λ result _.
        past_guard _ _ λ _. or_fail-Ends {P = λ svc. Unit {0}} _ _ (λ svc e. tt) then_by λ svc _.
        let filed : Challenge = record {
          challenger = signer;
          posted_at = height;
          attestation = msg.attestation;
          bond = w.params.challenger_bond_amount;
        } in
        let r = record req { challenges = req.challenges ++ filed ∷ []; status = challenged } in
        let here = request_stored w v msg.request_id req e in
        let old = (request-IsSound w v msg.request_id req e).1 in
        let open_ = is_submitted→eq req.status status in
        let shape = subst (HasShape req) open_ old.shaped in
        let first = first_filed req.challenges filed shape.1 g.storable in
        past_check _ (
          lock_coin total 0 (locked w) w.params.challenger_bond_amount w.accounts signer g.apart
            v.funded
          then_by λ accs h. returns (
              update_request-Inv w v req r accs here
                (record {
                  served = old.served;
                  payable = old.payable;
                  shaped = (shape.0, first.0, subst (All IsVoucher) (sym shape.2) tt);
                })
                (Holds-le _
                  (omega (
                    arith,
                    relock w v req r here,
                    ap (stake_in req) open_,
                    first.1,
                    ap voucher_bonds shape.2,
                  ))
                  h)))

  pub apply_vouch-Inv :
      (msg : MsgVouch) → Ends Any (λ x. Inv total x.0) (apply_vouch w signer msg height)
  unfolding apply_vouch
  apply_vouch-Inv msg = past_guard _ _ λ _.
      or_fail-Ends {P = λ r. get w.requests msg.request_id ≡ some r} _ _ (λ r e. e) then_by λ req e.
      past_guard _ _ λ status. or_fail-Ends {P = λ c. Unit {0}} _ _ (λ c e. tt) then_by λ dispute _.
      past_guard _ _ λ _. or_fail-Ends {P = λ svc. Unit {0}} _ _ (λ svc e. tt) then_by λ svc _.
      past_check _ (
        or_fail-Ends {P = λ side. Unit {0}} _ _ (λ side e. tt) then_by λ side _. past_guard _ _ λ _.
          past_guard _ _ λ _.
            let bond = voucher_bond w.params req.provider_bond in
            let filed : Voucher = record {
              voucher = signer;
              posted_at = height;
              attestation = msg.attestation;
              bond = bond;
              supports_provider = side;
            } in
            let r = record req { vouchers = req.vouchers ++ filed ∷ [] } in
            let here = request_stored w v msg.request_id req e in
            let old = (request-IsSound w v msg.request_id req e).1 in
            let open_ = is_challenged→eq req.status status in
            let shape = subst (HasShape req) open_ old.shaped in
            lock_coin total 0 (locked w) bond w.accounts signer g.apart v.funded then_by λ accs h.
            returns (
              update_request-Inv w v req r accs here
                (record {
                  served = old.served;
                  payable = old.payable;
                  shaped = subst (HasShape r) (sym open_) (
                    shape.0,
                    shape.1,
                    All-append IsVoucher req.vouchers _ shape.2 (g.storable, tt),
                  );
                })
                (Holds-le _
                  (omega (
                    arith,
                    relock w v req r here,
                    ap (stake_in req) open_,
                    ap (stake_in r) open_,
                    sum_by-append (λ (x : Voucher). x.bond.amount) req.vouchers (filed ∷ []),
                  ))
                  h)))

  resolution-Inv :
      (r : InferenceRequest) (dismissed slashed_ : Bool) (e : Error)
      → get w.requests r.id ≡ some r
      → r.status ≡ challenged
      → Ends Any
          (λ x. Inv total x.0)
          (if dismissed
            then execute_dismiss w r height
            else if slashed_
            then execute_slash w r height
            else err e)
  resolution-Inv r true s e here status =
      Any-of_Never (weaken (λ x d. d.inv) (execute_dismiss-Resolves w v r here height status))
  resolution-Inv r false true e here status =
      Any-of_Never (weaken (λ x d. d.inv) (execute_slash-Resolves w v r here height status))
  resolution-Inv r false false e here status = fails tt

  pub apply_resolve_challenge-Inv :
      (msg : MsgResolveChallenge)
      → Ends Any (λ x. Inv total x.0) (apply_resolve_challenge w signer msg height)
  unfolding apply_resolve_challenge
  apply_resolve_challenge-Inv msg = past_check _ (
      or_fail-Ends {P = λ r. get w.requests msg.request_id ≡ some r} _ _ (λ r e. e) then_by λ r e.
      past_guard _ _ λ status.
        resolution-Inv r _ _ _ (request_stored w v msg.request_id r e)
          (is_challenged→eq r.status status)
        then_by λ x inv. returns inv)
