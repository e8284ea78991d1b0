-- ===== src/Tests/Feeds.antt =====
-- A subscriber's channel at a concrete log.
use l1_modular_blockchain.Common.{
  ◌+◌, ◌≤◌, ◌≡◌, refl, true, false, none, List, [], ◌∷◌, length, sum_by, arith,
}
use l1_modular_blockchain.Int64.{pos}
use l1_modular_blockchain.Types.{Event, block_committed}
use l1_modular_blockchain.State.Log.{emit}
use l1_modular_blockchain.State.Feed.{
  channel_size, Feed, subscribe, publish, offer, cancel, Label, emitted, received, silent, Step,
  publishes, replays, receives, cancels, Run, ends, takes, all_emitted, all_received,
}
use l1_modular_blockchain.State.Feed.Once.{Run-once}

abbrev old : Event
old = record {
  block_height = pos 1;
  payload = block_committed (record { height = pos 1; time = "noon" });
}

abbrev fresh : Event
fresh = record {
  block_height = pos 2;
  payload = block_committed (record { height = pos 2; time = "one" });
}

-- An event that is emitted while the old ones are replayed comes before them.
abbrev overtaking : List Label
overtaking = emitted fresh ∷ silent ∷ silent ∷ received fresh ∷ received old ∷ []

abbrev drained : Feed
drained = record {
  log = old ∷ fresh ∷ [];
  subscribed = true;
  closed = false;
  queue = [];
  replay = [];
  sends = [];
}

overtaking-Run : Run (subscribe (old ∷ [])) overtaking drained
unfolding subscribe publish offer emit
overtaking-Run = takes (publishes fresh) (
    takes (Step.sends [] [] fresh refl refl) (
      takes (replays [] old refl (omega arith) refl)
        (takes (receives (old ∷ []) fresh refl) (takes (receives [] old refl) ends))))

Run-once_example :
    (length drained.queue ≤ channel_size)
    × (sum_by (λ e. 1) (all_received overtaking)
        ≤ sum_by (λ e. 1) (old ∷ []) + sum_by (λ e. 1) (all_emitted overtaking))
Run-once_example = Run-once (λ e. 1) (old ∷ []) overtaking drained overtaking-Run

-- A channel that is closed while its events are replayed: the next of the sends panics.
abbrev abandoned : Feed
abandoned = record {
  log = old ∷ [];
  subscribed = false;
  closed = true;
  queue = [];
  replay = old ∷ [];
  sends = [];
}

abandoned-Run : Run (subscribe (old ∷ [])) (silent ∷ []) abandoned
unfolding subscribe cancel
abandoned-Run = takes (cancels refl) ends

abandoned_panics : offer (record abandoned { replay = [] }) old ≡ none
unfolding offer
abandoned_panics = refl
