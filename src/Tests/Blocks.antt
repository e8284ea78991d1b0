-- ===== src/Tests/Blocks.antt =====
-- Blocks at a concrete state of the chain.
use l1_modular_blockchain.Common.{refl, [], ◌∷◌, arith}
use l1_modular_blockchain.Types.{refunded}
use l1_modular_blockchain.Outcome.{Ends, Never}
use l1_modular_blockchain.State.{World}
use l1_modular_blockchain.Block.{refund, due, commit_block, run_block_producer}
use l1_modular_blockchain.Solvency.Stake.{Inv}
use l1_modular_blockchain.Solvency.Close.{EndedAs}
use l1_modular_blockchain.Solvency.Ticks.{Ticked, commit_block-Ticked}
use l1_modular_blockchain.Solvency.Producer.{run_block_producer-EndedAs}
use l1_modular_blockchain.Tests.Fixtures.{bolt, chain, chain-Inv, waiting}

-- Two blocks before the first request can be refunded.
abbrev early : World
early = record chain { height = 4 }

early-Inv : Inv 1000 early
early-Inv = record {
  funded = chain-Inv.funded;
  sound = chain-Inv.sound;
  owned = chain-Inv.owned;
  fresh_requests = chain-Inv.fresh_requests;
  fresh_services = chain-Inv.fresh_services;
}

commit_block-Ticked_example : Ends Never (λ x. Ticked chain x.0) (commit_block chain "noon")
commit_block-Ticked_example = commit_block-Ticked chain "noon" chain-Inv

run_block_producer-EndedAs_example :
    EndedAs refunded (run_block_producer early ("noon" ∷ "one" ∷ [])).0 waiting
unfolding due
run_block_producer-EndedAs_example =
    run_block_producer-EndedAs early 1 waiting refund "noon" ("one" ∷ []) early-Inv refl
      (omega arith) refl
