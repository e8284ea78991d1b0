-- ===== src/Solvency/Producer.antt =====
-- About `RunBlockProducer` of chain/internal/state/block.go: what a run of blocks makes of a request.
use l1_modular_blockchain.Common.{
  ℕ, suc, ◌+◌, ◌<◌, ◌^◌, ◌≡◌, refl, ◌∙◌, ap, true, some, List, [], ◌∷◌, arith, String, subst,
  Option-cases, inl, inr,
}
use l1_modular_blockchain.Int64.{ℤ, pos, to_uint64, to_int64, add_int64, add_int64-pos}
use l1_modular_blockchain.Types.{InferenceRequest, Event, Service, Params, VerificationDomain}
use l1_modular_blockchain.Outcome.{Outcome, Ends, returns, fails, Never}
use l1_modular_blockchain.Bolt.{Bolt}
use l1_modular_blockchain.State.{World}
use l1_modular_blockchain.Block.{
  Transition, refund, finalize, slash, dismiss, due, verdict, effective_margin, next_height,
  commit_block, tick, run_block_producer,
}
use l1_modular_blockchain.Solvency.Stake.{Inv}
use l1_modular_blockchain.Solvency.Close.{EndedAs, is_terminal}
use l1_modular_blockchain.Solvency.Finality.{Keeps, Keeps-trans, untouched}
use l1_modular_blockchain.Solvency.Blocks.{target, commit_block_all}
use l1_modular_blockchain.Solvency.Ticks.{Moved, Ticked, commit_block-Ticked}

target_ends : (t : Transition) → is_terminal (target t) ≡ true
target_ends refund = refl
target_ends finalize = refl
target_ends slash = refl
target_ends dismiss = refl

-- How many blocks are made.
abbrev pub blocks : List String → ℕ
blocks [] = 0
blocks (time ∷ times) = suc (blocks times)

module _ ⦃bolt : Bolt⦄ where
  open bolt use {get, Table}

  tick-Ends {κ} :
      (P : World → Type κ) (w : World) (m : Outcome (World × List Event))
      → Ends Never (λ x. P x.0) m
      → P (tick w m).0
  tick-Ends P w m (returns h) = h
  tick-Ends P w m (fails q) = absurd q

  tick-all :
      {total : ℕ} (w : World) (time : String)
      → Inv total w
      → Inv total (tick w (commit_block w time)).0 × Keeps w (tick w (commit_block w time)).0
  tick-all w time v = let h = tick-Ends _ w _ (commit_block_all w time v) in (h.0, h.1)

  tick-Ticked :
      {total : ℕ} (w : World) (time : String)
      → Inv total w
      → Ticked w (tick w (commit_block w time)).0
  tick-Ticked w time v = tick-Ends _ w _ (commit_block-Ticked w time v)

  run-Keeps :
      {total : ℕ} (w : World) (times : List String)
      → Inv total w
      → Keeps w (run_block_producer w times).0
  unfolding run_block_producer
  run-Keeps w [] v = untouched w w refl refl
  run-Keeps w (time ∷ times) v =
      let w1 = (tick w (commit_block w time)).0 in
      let h = tick-all w time v in Keeps-trans w w1 _ h.1 (run-Keeps w1 times h.0)

  -- The status of a request and the votes leave one transition that can be due.
  due-one :
      (w : World) (h h' : ℤ) (r : InferenceRequest) (t u : Transition)
      → due w h r ≡ some t
      → due w h' r ≡ some u
      → u ≡ t
  unfolding due
  due-one w h h' r t u e e' = ground arith

  due-later : (w w' : World) (h : ℤ) (r : InferenceRequest) → Ticked w w' → due w' h r ≡ due w h r
  unfolding due verdict effective_margin
  due-later w w' h r s =
      let same : (w'.services, w'.params, w'.domains) ≡ (w.services, w.params, w.domains) =
        cc (s.same_services, s.same_params, s.same_domains) in
      ap
        (λ (x : Table Service × Params × Table VerificationDomain).
          due (record w { services = x.0; params = x.1; domains = x.2 }) h r)
        same

  -- A request that has come to its end stays so while blocks are made.
  run-ended :
      {total : ℕ} (t : Transition) (w : World) (times : List String) (r : InferenceRequest)
      → Inv total w
      → EndedAs (target t) w r
      → EndedAs (target t) (run_block_producer w times).0 r
  run-ended t w times r v h =
      let done : is_terminal h.0.status ≡ true =
        ap (λ (x : InferenceRequest). is_terminal x.status) h.2 ∙ target_ends t in
      (h.0, (run-Keeps w times v).final r.id h.0 h.1 done, h.2)

  -- Below 2^63 the height grows by one.
  next_height-pos : (w : World) → w.height + 1 < 2 ^ 63 → next_height w ≡ pos (w.height + 1)
  unfolding to_int64
  next_height-pos w h =
      let read : to_int64 w.height ≡ pos w.height = ground arith in
      ap (λ z. add_int64 z (pos 1)) read ∙ add_int64-pos w.height 1 h

  tick-height : (w w' : World) → Ticked w w' → w.height + 1 < 2 ^ 63 → w'.height ≡ w.height + 1
  unfolding to_uint64
  tick-height w w' s h =
      let shown : to_uint64 (pos (w.height + 1)) ≡ w.height + 1 = omega arith in
      s.height ∙ ap to_uint64 (next_height-pos w h) ∙ shown

  -- On a state that satisfies the invariant, let blocks be made, at least one, and let the height
  -- that they reach be below 2^63. A stored request for which a transition is due at that height
  -- has the status that the transition ends in after the blocks, with no other change than that of
  -- the height of its end and what it paid.
  pub run_block_producer-EndedAs :
      {total : ℕ} (w : World) (k : ℕ) (r : InferenceRequest) (t : Transition) (time : String)
      (times : List String)
      → Inv total w
      → get w.requests k ≡ some r
      → w.height + blocks (time ∷ times) < 2 ^ 63
      → due w (pos (w.height + blocks (time ∷ times))) r ≡ some t
      → EndedAs (target t) (run_block_producer w (time ∷ times)).0 r
  unfolding run_block_producer
  run_block_producer-EndedAs w k r t time [] v here room now =
      let e : due w (next_height w) r ≡ some t =
        ap (λ h. due w h r) (next_height-pos w (omega arith)) ∙ now in
      subst (Moved (tick w (commit_block w time)).0 r) e ((tick-Ticked w time v).requests k r here)
  run_block_producer-EndedAs w k r t time (time' ∷ times) v here room now =
      let w1 = (tick w (commit_block w time)).0 in
      let s = tick-Ticked w time v in
      let inv = (tick-all w time v).0 in
      let grown = tick-height w w1 s (omega arith) in
      let step = s.requests k r here in
      elim (Option-cases (due w (next_height w) r)) [
        | inl none_due ↦
            let still : get w1.requests r.id ≡ some r = subst (Moved w1 r) none_due step in
            let last : due w1 (pos (w1.height + blocks (time' ∷ times))) r ≡ some t =
              due-later w w1 _ r s ∙ ap (λ n. due w (pos n) r) (omega arith) ∙ now in
            run_block_producer-EndedAs w1 r.id r t time' times inv still (omega arith) last
        | inr (u, first) ↦
            let one : u ≡ t = due-one w _ _ r t u now first in
            run-ended t w1 (time' ∷ times) r inv (subst (Moved w1 r) (first ∙ ap some one) step)
      ]
