-- ===== src/Block/Sweep.antt =====
-- The four sweeps, and the block.
use l1_modular_blockchain.Common.{String, some, List, [], ◌∷◌, ◌++◌}
use l1_modular_blockchain.Int64.{ℤ, pos, add_int64, to_int64, to_uint64}
use l1_modular_blockchain.Types.{
  InferenceRequest, Event, request_refunded, request_finalized, block_committed, refunded,
  finalized,
}
use l1_modular_blockchain.Outcome.{Outcome, ok, ◌>>=◌}
use l1_modular_blockchain.Bolt.{Bolt}
use l1_modular_blockchain.State.{World, module_escrow_addr, get_service, put_request, rows}
use l1_modular_blockchain.State.Bank.{move, move_bond, moved_bond}
use l1_modular_blockchain.Resolution.Slash.{execute_slash}
use l1_modular_blockchain.Resolution.Dismiss.{execute_dismiss}
use l1_modular_blockchain.Resolution.Sweep.{sweep}
use l1_modular_blockchain.Block.Due.{collect, refund, finalize, slash, dismiss}

module _ ⦃bolt : Bolt⦄ where
  unfoldable pub refund_request : World → InferenceRequest → ℤ → Outcome (World × Event)
  refund_request w r height = do
    paid ← move w.accounts module_escrow_addr r.requester r.escrow.amount
    ok (
      put_request (record w { accounts = paid })
          (record r { status = refunded; finalized_at_height = height }),
      record {
        block_height = height;
        payload =
            request_refunded
              (record { request_id = r.id; requester = r.requester; refunded = r.escrow });
      },
    )

  unfoldable pub finalize_request : World → InferenceRequest → ℤ → Outcome (World × Event)
  finalize_request w r height = do
    svc ← get_service w r.service_id
    paid ← move w.accounts module_escrow_addr svc.owner r.escrow.amount
    released ← move_bond paid module_escrow_addr svc.owner r.provider_bond
    ok (
      put_request (record w { accounts = released })
          (record r { status = finalized; finalized_at_height = height; paid = some r.escrow }),
      record {
        block_height = height;
        payload = request_finalized (record {
          request_id = r.id;
          provider = svc.owner;
          paid = r.escrow;
          provider_bond_returned = moved_bond r.provider_bond;
        });
      },
    )

  -- `meta[height] + 1`, read and written as an int64.
  abbrev pub next_height : World → ℤ
  next_height w = add_int64 (to_int64 w.height) (pos 1)

  abbrev pub begin_block : World → World
  begin_block w = record w { height = to_uint64 (next_height w) }

  -- The requests are collected before any is changed. The last event has the wall clock's time.
  unfoldable pub commit_block : World → String → Outcome (World × List Event)
  commit_block w time = do
    let height = next_height w
    let w0 = begin_block w
    let rs = rows w0.requests
    (w1, refunds) ← sweep refund_request w0 (collect w0 height refund rs) height
    (w2, finals) ← sweep finalize_request w1 (collect w0 height finalize rs) height
    (w3, slashes) ← sweep execute_slash w2 (collect w0 height slash rs) height
    (w4, dismissals) ← sweep execute_dismiss w3 (collect w0 height dismiss rs) height
    ok (
      w4,
      refunds
          ++ (finals
              ++ (slashes
                  ++ (dismissals
                      ++ record {
                        block_height = height;
                        payload = block_committed (record { height = height; time = time });
                      }
                        ∷ []))),
    )
