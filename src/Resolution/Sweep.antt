-- ===== src/Resolution/Sweep.antt =====
-- The loops of `commitBlock` and `applyDeactivateDomain` over the requests that they have collected.
use l1_modular_blockchain.Common.{List, [], ◌∷◌}
use l1_modular_blockchain.Int64.{ℤ}
use l1_modular_blockchain.Types.{InferenceRequest, Event}
use l1_modular_blockchain.Outcome.{Outcome, ok, ◌>>=◌}
use l1_modular_blockchain.Bolt.{Bolt}
use l1_modular_blockchain.State.{World}

module _ ⦃bolt : Bolt⦄ where
  -- One loop over a list of requests.
  unfoldable pub sweep :
      (World → InferenceRequest → ℤ → Outcome (World × Event))
      → World
      → List InferenceRequest
      → ℤ
      → Outcome (World × List Event)
  sweep step w [] height = ok (w, [])
  sweep step w (r ∷ rs) height = do
    (w', event) ← step w r height
    (w'', events) ← sweep step w' rs height
    ok (w'', event ∷ events)
