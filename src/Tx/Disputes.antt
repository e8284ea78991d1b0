-- ===== src/Tx/Disputes.antt =====
-- `applyChallenge`, `applyVouch` and `applyResolveChallenge`.
use l1_modular_blockchain.Common.{
  ◌*◌, ◌/◌, ◌%◌, ◌^◌, String, Bool, true, false, not, ◌&&◌, ◌||◌, Option, none, some, List, [], ◌∷◌,
  ◌++◌, if◌then◌else◌, str_eq,
}
use l1_modular_blockchain.Int64.{ℤ, pos, ltb_ℤ, add_int64, to_uint64}
use l1_modular_blockchain.Types.{
  Coin, is_positive, Service, Result, Challenge, Voucher, challenged, Params, MsgChallenge,
  MsgVouch, MsgResolveChallenge, Event, request_challenged, request_vouched, signer_mismatch,
  challenge_not_applicable, challenge_window_closed, input_hash_mismatch, broken_invariant,
  challenge_output_matches, vouch_not_applicable, vouch_not_eligible, vouch_hash_mismatch,
  vouch_duplicate, unauthorized, invalid_decision,
}
use l1_modular_blockchain.Outcome.{Outcome, ok, err, ◌>>=◌, ◌>>◌, refuse_if, or_fail}
use l1_modular_blockchain.Bolt.{Bolt}
use l1_modular_blockchain.State.{
  World, module_escrow_addr, get_service, get_request, put_request, voucher_eligible,
}
use l1_modular_blockchain.State.Bank.{move_coin}
use l1_modular_blockchain.Resolution.Slash.{execute_slash}
use l1_modular_blockchain.Resolution.Dismiss.{execute_dismiss}
use l1_modular_blockchain.Tx.Attest.{check_attestation}
use l1_modular_blockchain.Tx.Requests.{is_submitted, is_challenged}

-- `challengeResolutionWindowBlocks`
abbrev pub challenge_resolution_window_blocks : ℤ
challenge_resolution_window_blocks = pos 20

-- Has the account vouched already?
unfoldable pub has_vouched : String → List Voucher → Bool
has_vouched signer [] = false
has_vouched signer (v ∷ vs) = if str_eq v.voucher signer then true else has_vouched signer vs

-- The side that an output hash takes, if it takes one.
unfoldable pub side_of : String → String → String → Option Bool
side_of hash provider_hash challenger_hash =
    if str_eq hash provider_hash
    then some true
    else if str_eq hash challenger_hash
    then some false
    else none

-- The voucher's bond: a share of the provider's, in basis points, or the fixed amount.
unfoldable pub scaled_bond : Params → Coin → Coin
scaled_bond params bond =
    if ltb_ℤ (pos 0) params.voucher_bond_scale_bp && is_positive bond
    then record {
      denom = bond.denom;
      amount = ((bond.amount * to_uint64 params.voucher_bond_scale_bp) % 2 ^ 64) / 10000;
    }
    else params.voucher_bond_amount

unfoldable pub voucher_bond : Params → Option Coin → Coin
unfolding scaled_bond
voucher_bond params none = params.voucher_bond_amount
voucher_bond params (some bond) = scaled_bond params bond

-- A dispute needs a challenge and a result.
abbrev pub disputed : List Challenge → Option Result → Option (Challenge × Result)
disputed [] result = none
disputed (c ∷ cs) none = none
disputed (c ∷ cs) (some result) = some (c, result)

module _ ⦃bolt : Bolt⦄ where
  open bolt use {Dict}

  unfoldable pub apply_challenge : World → String → MsgChallenge → ℤ → Outcome (World × Event)
  apply_challenge w signer msg height = do
    refuse_if (not (str_eq msg.challenger signer)) signer_mismatch
    req ← get_request w msg.request_id
    refuse_if (not (is_submitted req.status)) challenge_not_applicable
    refuse_if (ltb_ℤ (add_int64 req.submitted_at_height w.params.challenge_window_blocks) height)
        challenge_window_closed
    refuse_if (not (str_eq msg.attestation.input_hash req.input_hash)) input_hash_mismatch
    result ← or_fail req.result broken_invariant
    refuse_if (str_eq msg.attestation.output_hash result.output_hash) challenge_output_matches
    svc ← get_service w req.service_id
    check_attestation w svc msg.attestation
    locked ← move_coin w.accounts signer module_escrow_addr w.params.challenger_bond_amount
    ok (
      put_request (record w { accounts = locked })
          (record req {
            challenges =
                req.challenges
                ++ record {
                  challenger = signer;
                  posted_at = height;
                  attestation = msg.attestation;
                  bond = w.params.challenger_bond_amount;
                }
                  ∷ [];
            status = challenged;
          }),
      record {
        block_height = height;
        payload = request_challenged (record {
          request_id = req.id;
          challenger = signer;
          challenger_output_hash = msg.attestation.output_hash;
          provider_output_hash = result.output_hash;
          challenger_bond = w.params.challenger_bond_amount;
        });
      },
    )

  -- A service in a domain: the attestation fits it, and the voucher runs a service there.
  unfoldable pub check_voucher : World → String → Service → MsgVouch → Outcome (Unit {0})
  check_voucher w signer svc msg = do
    check_attestation w svc msg.attestation
    refuse_if (not (voucher_eligible w signer svc.verification_domain_id)) vouch_not_eligible

  unfoldable pub apply_vouch : World → String → MsgVouch → ℤ → Outcome (World × Event)
  apply_vouch w signer msg height = do
    refuse_if (not (str_eq msg.voucher signer)) signer_mismatch
    req ← get_request w msg.request_id
    refuse_if (not (is_challenged req.status)) vouch_not_applicable
    (challenge, result) ← or_fail (disputed req.challenges req.result) broken_invariant
    refuse_if (not (str_eq msg.attestation.input_hash req.input_hash)) input_hash_mismatch
    svc ← get_service w req.service_id
    check_voucher w signer svc msg
    supports ←
        or_fail
          (side_of msg.attestation.output_hash result.output_hash challenge.attestation.output_hash)
          vouch_hash_mismatch
    refuse_if (has_vouched signer req.vouchers) vouch_duplicate
    refuse_if (ltb_ℤ (add_int64 challenge.posted_at challenge_resolution_window_blocks) height)
        vouch_not_applicable
    let bond = voucher_bond w.params req.provider_bond
    locked ← move_coin w.accounts signer module_escrow_addr bond
    ok (
      put_request (record w { accounts = locked })
          (record req {
            vouchers =
                req.vouchers
                ++ record {
                  voucher = signer;
                  posted_at = height;
                  attestation = msg.attestation;
                  bond = bond;
                  supports_provider = supports;
                }
                  ∷ [];
          }),
      record {
        block_height = height;
        payload = request_vouched (record {
          request_id = req.id;
          voucher = signer;
          voucher_output_hash = msg.attestation.output_hash;
          supports_provider = supports;
          bond = bond;
        });
      },
    )

  -- The checks of a transaction of the authority: it is set, and it signed.
  unfoldable pub check_authority : World → String → String → Outcome (Unit {0})
  check_authority w signer authority = do
    refuse_if (str_eq w.authority "" || not (str_eq signer w.authority)) unauthorized
    refuse_if (not (str_eq authority signer)) signer_mismatch

  unfoldable pub apply_resolve_challenge :
      World → String → MsgResolveChallenge → ℤ → Outcome (World × List Event)
  apply_resolve_challenge w signer msg height = do
    check_authority w signer msg.authority
    r ← get_request w msg.request_id
    refuse_if (not (is_challenged r.status)) challenge_not_applicable
    (w', event) ←
        if str_eq msg.decision "dismiss"
        then execute_dismiss w r height
        else if str_eq msg.decision "slash"
        then execute_slash w r height
        else err invalid_decision
    ok (w', event ∷ [])
