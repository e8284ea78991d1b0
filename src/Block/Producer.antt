-- ===== src/Block/Producer.antt =====
-- `RunBlockProducer`: one block per tick of the clock.
use l1_modular_blockchain.Common.{String, List, [], ◌∷◌, ◌++◌}
use l1_modular_blockchain.Types.{Event}
use l1_modular_blockchain.Outcome.{Outcome, ok, err}
use l1_modular_blockchain.Bolt.{Bolt}
use l1_modular_blockchain.State.{World}
use l1_modular_blockchain.Block.Sweep.{commit_block}

module _ ⦃bolt : Bolt⦄ where
  -- A block that fails is logged and leaves no trace.
  abbrev pub tick : World → Outcome (World × List Event) → World × List Event
  tick w (ok x) = x
  tick w (err e) = (w, [])

  -- The ticks until the context is done, each with the time of its block.
  unfoldable pub run_block_producer : World → List String → World × List Event
  run_block_producer w [] = (w, [])
  run_block_producer w (time ∷ times) =
      let x = tick w (commit_block w time) in
      let rest = run_block_producer x.0 times in (rest.0, x.1 ++ rest.1)
