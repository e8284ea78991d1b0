-- ===== src/Solvency/Blocks.antt =====
-- About `commitBlock` of chain/internal/state/block.go: its four sweeps and the invariant.
use l1_modular_blockchain.Common.{
  ℕ, ◌≡◌, ◌≢◌, sym, ◌∙◌, true, false, Option, some, List, arith, All, All-map, All-map₂, All-map_of,
  ap, select, All-select, select_test, String,
}
use l1_modular_blockchain.Int64.{ℤ}
use l1_modular_blockchain.Types.{
  InferenceRequest, Event, RequestStatus, pending, submitted, challenged, finalized, slashed,
  refunded,
}
use l1_modular_blockchain.Outcome.{Outcome, Ends, returns, Never, weaken, ◌then_by◌}
use l1_modular_blockchain.Bolt.{Bolt, get-All}
use l1_modular_blockchain.State.{World, rows}
use l1_modular_blockchain.Resolution.Sweep.{sweep}
use l1_modular_blockchain.Resolution.Slash.{execute_slash}
use l1_modular_blockchain.Resolution.Dismiss.{execute_dismiss}
use l1_modular_blockchain.Block.{
  refund_request, finalize_request, Transition, refund, finalize, slash, dismiss, is_due, due,
  due_in, verdict, collect, begin_block, next_height, commit_block,
}
use l1_modular_blockchain.Solvency.Stake.{Inv}
use l1_modular_blockchain.Solvency.Close.{Resolves, is_terminal}
use l1_modular_blockchain.Solvency.Finality.{Keeps, Keeps-trans, Swept-Keeps}
use l1_modular_blockchain.Solvency.Outcomes.{
  refund_request-Resolves, finalize_request-Resolves, execute_slash-Resolves,
  execute_dismiss-Resolves,
}
use l1_modular_blockchain.Solvency.Sweeps.{
  Fresh, Distinct, Rising, rows-Rising, select-Distinct, select-apart, Current, Swept,
  Swept-Current, sweep-Swept,
}

pub is_due→eq : (t : Transition) (d : Option Transition) → is_due t d ≡ true → d ≡ some t
is_due→eq t d h = ground arith

-- The status that a transition starts from.
abbrev pub source : Transition → RequestStatus
source refund = pending
source finalize = submitted
source slash = challenged
source dismiss = challenged

-- The status that a transition ends in.
abbrev pub target : Transition → RequestStatus
target refund = refunded
target finalize = finalized
target slash = slashed
target dismiss = finalized

source-lasts : (t : Transition) (s : RequestStatus) → s ≡ source t → is_terminal s ≡ false
source-lasts t s h = ground arith

module _ ⦃bolt : Bolt⦄ where
  open bolt use {get, cursor, cursor-Ascending, get_lem}

  due_in-source :
      (w : World) (r : InferenceRequest) (height : ℤ) (s : RequestStatus) (t : Transition)
      → due_in w r height s ≡ some t
      → s ≡ source t
  unfolding verdict
  due_in-source w r height s t h = ground arith

  -- What is collected for a transition stands in its status.
  collect-source :
      (w : World) (height : ℤ) (t : Transition) (rs : List InferenceRequest)
      → All (λ r. r.status ≡ source t) (collect w height t rs)
  unfolding collect due
  collect-source w height t rs =
      All-map _ _ (select (λ r. is_due t (due w height r)) rs)
        (λ r h. due_in-source w r height r.status t (is_due→eq t _ h)) (select_test _ rs)

  collect-apart :
      (w : World) (height : ℤ) (t u : Transition) (rs : List InferenceRequest)
      → t ≢ u
      → Rising 0 rs
      → All (λ r. Fresh r.id (collect w height t rs)) (collect w height u rs)
  unfolding collect due
  collect-apart w height t u rs ne h =
      select-apart _ _ 0 rs (λ r du dt. ne (cc (is_due→eq t _ dt, is_due→eq u _ du))) h

  -- At the start of a block the invariant holds still.
  pub begin_block-Inv : {total : ℕ} (w : World) → Inv total w → Inv total (begin_block w)
  begin_block-Inv w v = record {
    funded = v.funded;
    sound = v.sound;
    owned = v.owned;
    fresh_requests = v.fresh_requests;
    fresh_services = v.fresh_services;
  }

  pub rows_in_order : {total : ℕ} (w : World) → Inv total w → Rising 0 (rows w.requests)
  rows_in_order w v =
      rows-Rising 0 (cursor w.requests) (cursor-Ascending w.requests)
        (All-map _ _ (cursor w.requests) (λ e h. h.0) v.sound)

  pub rows_in_store : {total : ℕ} (w : World) → Inv total w → Current w (rows w.requests)
  rows_in_store w v =
      All-map_of _ (λ e. e.1) (cursor w.requests)
        (All-map₂ _ _ _ (cursor w.requests) (λ e h k. ap (get w.requests) (sym h.0) ∙ k) v.sound
          (get-All w.requests))

  -- One of the four sweeps, on what was collected at the start of the block.
  collect-Distinct :
      (w : World) (height : ℤ) (t : Transition) (rs : List InferenceRequest)
      → Rising 0 rs
      → Distinct (collect w height t rs)
  unfolding collect
  collect-Distinct w height t rs h = select-Distinct _ 0 rs h

  collect-Current :
      (w : World) (height : ℤ) (t : Transition) (rs : List InferenceRequest)
      → Current w rs
      → Current w (collect w height t rs)
  unfolding collect
  collect-Current w height t rs h = All-select _ _ rs h

  -- The requests of a later sweep are current after an earlier one.
  keeps_stored :
      {total : ℕ} (w : World) (height : ℤ) (t u : Transition) (rs : List InferenceRequest)
      (w1 w2 : World)
      → t ≢ u
      → Rising 0 rs
      → Swept total w1 (collect w height t rs) (target t) w2
      → Current w1 (collect w height u rs)
      → Current w2 (collect w height u rs)
  keeps_stored w height t u rs w1 w2 ne h s c =
      Swept-Current w1 w2 _ _ s (collect-apart w height t u rs ne h) c

  -- What brings one request in a transition's status to its end.
  abbrev Ending :
      ℕ → Transition → (World → InferenceRequest → ℤ → Outcome (World × Event)) → ℤ → Type 0
  Ending total t step height =
      (w : World)
      → Inv total w
      → (r : InferenceRequest) → get w.requests r.id ≡ some r
      → r.status ≡ source t
      → Ends Never (λ x. Resolves total w r (target t) x.0) (step w r height)

  sweep_collected :
      {total : ℕ} (w : World) (height : ℤ) (t : Transition) (rs : List InferenceRequest)
      (step : World → InferenceRequest → ℤ → Outcome (World × Event)) (w1 : World)
      → Rising 0 rs
      → Ending total t step height
      → Inv total w1
      → Current w1 (collect w height t rs)
      → Ends Never
          (λ x. Swept total w1 (collect w height t rs) (target t) x.0 × Keeps w1 x.0)
          (sweep step w1 (collect w height t rs) height)
  sweep_collected w height t rs step w1 rising ending v c =
      let due_now = collect-source w height t rs in
      weaken
        (λ x s. (
          s,
          Swept-Keeps w1 x.0 _ s c
              (All-map _ _ (collect w height t rs) (λ r h. source-lasts t r.status h) due_now),
        ))
        (sweep-Swept (λ r. r.status ≡ source t) (target t) step height ending
          (collect w height t rs) w1 v c (collect-Distinct w height t rs rising) due_now)

  Keeps-begin_block : (w w' : World) → Keeps (begin_block w) w' → Keeps w w'
  Keeps-begin_block w w' h = record { same_nonces = h.same_nonces; final = h.final }

  -- The four sweeps of a block, by the states between them.
  pub record Stages (total : ℕ) (w w' : World) : Type 0 where
    pub after_refunds : World
    pub after_finals : World
    pub after_slashes : World
    pub refunds :
        Swept total
          (begin_block w)
          (collect (begin_block w) (next_height w) refund (rows (begin_block w).requests))
          refunded
          after_refunds
    pub finals :
        Swept total after_refunds
          (collect (begin_block w) (next_height w) finalize (rows (begin_block w).requests))
          finalized
          after_finals
    pub slashes :
        Swept total after_finals
          (collect (begin_block w) (next_height w) slash (rows (begin_block w).requests))
          slashed
          after_slashes
    pub dismissals :
        Swept total after_slashes
          (collect (begin_block w) (next_height w) dismiss (rows (begin_block w).requests))
          finalized
          w'

  pub commit_block_all :
      {total : ℕ} (w : World) (time : String)
      → Inv total w
      → Ends Never (λ x. Inv total x.0 × Keeps w x.0 × Stages total w x.0) (commit_block w time)
  unfolding commit_block
  commit_block_all {total} w time v =
      let h = next_height w in
      let w0 = begin_block w in
      let v0 = begin_block-Inv w v in
      let rs = rows w0.requests in
      let rising = rows_in_order w0 v0 in
      let now = λ (t : Transition). collect-Current w0 h t rs (rows_in_store w0 v0) in
      let keep = λ (t u : Transition). keeps_stored {total = total} w0 h t u rs in
      sweep_collected w0 h refund rs refund_request w0 rising
        (λ x i r here p. refund_request-Resolves x i r here h p) v0 (now refund)
      then_by λ x1 s1.
          sweep_collected w0 h finalize rs finalize_request x1.0 rising
            (λ x i r here p. finalize_request-Resolves x i r here h p) s1.0.inv
            (keep refund finalize w0 x1.0 (λ e. cc) rising s1.0 (now finalize))
          then_by λ x2 s2.
              sweep_collected w0 h slash rs execute_slash x2.0 rising
                (λ x i r here p. execute_slash-Resolves x i r here h p) s2.0.inv
                (keep finalize slash x1.0 x2.0 (λ e. cc) rising s2.0
                  (keep refund slash w0 x1.0 (λ e. cc) rising s1.0 (now slash)))
              then_by λ x3 s3.
                  sweep_collected w0 h dismiss rs execute_dismiss x3.0 rising
                    (λ x i r here p. execute_dismiss-Resolves x i r here h p) s3.0.inv
                    (keep slash dismiss x2.0 x3.0 (λ e. cc) rising s3.0
                      (keep finalize dismiss x1.0 x2.0 (λ e. cc) rising s2.0
                        (keep refund dismiss w0 x1.0 (λ e. cc) rising s1.0 (now dismiss))))
                  then_by λ x4 s4. returns (
                    s4.0.inv,
                    Keeps-trans w x1.0 x4.0 (Keeps-begin_block w x1.0 s1.1)
                        (Keeps-trans x1.0 x2.0 x4.0 s2.1 (Keeps-trans x2.0 x3.0 x4.0 s3.1 s4.1)),
                    record {
                      after_refunds = x1.0;
                      after_finals = x2.0;
                      after_slashes = x3.0;
                      refunds = s1.0;
                      finals = s2.0;
                      slashes = s3.0;
                      dismissals = s4.0;
                    },
                  )

  -- On a state that satisfies the invariant, commitBlock cannot fail, and the invariant holds
  -- after it, with the same supply.
  pub commit_block-Inv :
      {total : ℕ} (w : World) (time : String)
      → Inv total w
      → Ends Never (λ x. Inv total x.0) (commit_block w time)
  commit_block-Inv w time v = weaken (λ x h. h.0) (commit_block_all w time v)
