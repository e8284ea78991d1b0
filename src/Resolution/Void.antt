-- ===== src/Resolution/Void.antt =====
-- `executeVoidDueToDomain`.
use l1_modular_blockchain.Common.{String, Option, none, some, List, ◌∷◌}
use l1_modular_blockchain.Int64.{ℤ}
use l1_modular_blockchain.Types.{
  Coin, no_coin, Challenge, RequestStatus, submitted, challenged, refunded, InferenceRequest, Event,
  request_voided,
}
use l1_modular_blockchain.Outcome.{Outcome, ok, ◌>>=◌}
use l1_modular_blockchain.Bolt.{Bolt}
use l1_modular_blockchain.State.{World, Account, module_escrow_addr, get_service, put_request}
use l1_modular_blockchain.State.Bank.{move, move_coin, move_bond, moved_coin, moved_bond}
use l1_modular_blockchain.Resolution.Vouchers.{count_positive}
use l1_modular_blockchain.Resolution.Dismiss.{return_bonds}

-- The stakes that a request in this status holds: the provider's bond, from SUBMITTED on, and the
-- first challenge, while CHALLENGED.
abbrev pub staked_bond : RequestStatus → Option Coin → Option Coin
staked_bond submitted bond = bond
staked_bond challenged bond = bond
staked_bond _ bond = none

abbrev pub staked_challenge : RequestStatus → List Challenge → Option Challenge
staked_challenge challenged (c ∷ cs) = some c
staked_challenge _ cs = none

-- `provider` in the event, empty before SUBMITTED.
abbrev pub staked_provider : RequestStatus → String → String
staked_provider submitted owner = owner
staked_provider challenged owner = owner
staked_provider _ owner = ""

abbrev pub challenger_of : Option Challenge → String
challenger_of none = ""
challenger_of (some c) = c.challenger

abbrev pub challenger_coin : Option Challenge → Coin
challenger_coin none = no_coin
challenger_coin (some c) = moved_coin c.bond

module _ ⦃bolt : Bolt⦄ where
  open bolt use {Dict}

  unfoldable pub return_challenge : Dict Account → Option Challenge → Outcome (Dict Account)
  return_challenge accs none = ok accs
  return_challenge accs (some c) = move_coin accs module_escrow_addr c.challenger c.bond

  unfoldable pub execute_void : World → InferenceRequest → ℤ → Outcome (World × Event)
  execute_void w r height = do
    let bond = staked_bond r.status r.provider_bond
    let challenge = staked_challenge r.status r.challenges
    svc ← get_service w r.service_id
    refund ← move w.accounts module_escrow_addr r.requester r.escrow.amount
    released ← move_bond refund module_escrow_addr svc.owner bond
    returned ← return_challenge released challenge
    settled ← return_bonds returned r.vouchers
    ok (
      put_request (record w { accounts = settled })
          (record r { status = refunded; finalized_at_height = height }),
      record {
        block_height = height;
        payload = request_voided (record {
          request_id = r.id;
          service_id = r.service_id;
          domain_id = svc.verification_domain_id;
          prior_status = r.status;
          requester = r.requester;
          escrow_refunded = r.escrow;
          provider = staked_provider r.status svc.owner;
          provider_bond_returned = moved_bond bond;
          challenger = challenger_of challenge;
          challenger_bond_returned = challenger_coin challenge;
          voucher_bonds_returned = count_positive r.vouchers;
        });
      },
    )
