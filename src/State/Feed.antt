-- ===== src/State/Feed.antt =====
-- `Subscribe` and the sends of `emit`: the channel of one subscriber, its goroutines as steps that
-- are taken in any order.
use l1_modular_blockchain.Common.{
  ℕ, ◌<◌, ◌≡◌, Bool, true, false, Option, none, some, List, [], ◌∷◌, ◌++◌, length, ltb,
  if◌then◌else◌,
}
use l1_modular_blockchain.Types.{Event}
use l1_modular_blockchain.State.Log.{emit}
pub mod Once

-- The buffer of the channel.
abbrev pub channel_size : ℕ
channel_size = 64

-- `replay` is what the goroutine of `Subscribe` has left to send; `sends` are the calls of `emit`
-- that have read `s.subs` with the channel in it, and have not come to the channel yet.
pub record Feed : Type 0 where
  pub log : List Event
  pub subscribed : Bool
  pub closed : Bool
  pub queue : List Event
  pub replay : List Event
  pub sends : List Event

unfoldable pub subscribe : List Event → Feed
subscribe log = record {
  log = log;
  subscribed = true;
  closed = false;
  queue = [];
  replay = log;
  sends = [];
}

-- What `emit` does under the lock.
unfoldable pub publish : Feed → Event → Feed
unfolding emit
publish f e = record f {
  log = emit f.log e;
  sends = if f.subscribed then f.sends ++ e ∷ [] else f.sends;
}

-- `ch <- e` in a `select`, when it is chosen: a full buffer leaves the channel as it is, and a closed
-- channel panics.
unfoldable pub offer : Feed → Event → Option Feed
offer f e =
    if f.closed
    then none
    else if ltb (length f.queue) channel_size
    then some (record f { queue = f.queue ++ e ∷ [] })
    else some f

-- The function that `Subscribe` returns. A second call would close a closed channel.
unfoldable pub cancel : Feed → Option Feed
cancel f = if f.closed then none else some (record f { subscribed = false; closed = true })

-- What the outside sees of a step.
pub data Label : Type 0 where
  emitted received : Event → Label
  silent : Label

pub data Step (f : Feed) : Label → Feed → Type 0 where
  publishes : (e : Event) → Step f (emitted e) (publish f e)
  sends :
      (before after : List Event) (e : Event) {g : Feed}
      → f.sends ≡ before ++ e ∷ after
      → offer (record f { sends = before ++ after }) e ≡ some g
      → Step f silent g
  -- A send of the replay waits for room in the buffer.
  replays :
      (rest : List Event) (e : Event) {g : Feed}
      → f.replay ≡ e ∷ rest
      → length f.queue < channel_size
      → offer (record f { replay = rest }) e ≡ some g
      → Step f silent g
  -- After two seconds without room.
  gives_up : Step f silent (record f { replay = [] })
  receives :
      (rest : List Event) (e : Event)
      → f.queue ≡ e ∷ rest
      → Step f (received e) (record f { queue = rest })
  cancels : {g : Feed} → cancel f ≡ some g → Step f silent g

pub data Run : Feed → List Label → Feed → Type 0 where
  ends : {f : Feed} → Run f [] f
  takes : {f g h : Feed} {l : Label} {ls : List Label} → Step f l g → Run g ls h → Run f (l ∷ ls) h

-- What was emitted, and what the subscriber has received.
abbrev pub all_emitted : List Label → List Event
all_emitted [] = []
all_emitted (emitted e ∷ ls) = e ∷ all_emitted ls
all_emitted (_ ∷ ls) = all_emitted ls

abbrev pub all_received : List Label → List Event
all_received [] = []
all_received (received e ∷ ls) = e ∷ all_received ls
all_received (_ ∷ ls) = all_received ls
