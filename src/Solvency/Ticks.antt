-- ===== src/Solvency/Ticks.antt =====
-- About what one block of chain/internal/state/block.go does to each of the stored requests.
use mathlib.Core.List.{Memᴰ}
use l1_modular_blockchain.Common.{
  ℕ, ◌≡◌, ◌≢◌, refl, sym, ◌∙◌, ap, true, Option, none, some, arith, All-map₂, All-select,
  select_test, String,
}
use l1_modular_blockchain.Int64.{ℤ, to_uint64}
use l1_modular_blockchain.Types.{InferenceRequest, RequestStatus}
use l1_modular_blockchain.Outcome.{Ends, Never, weaken}
use l1_modular_blockchain.Bolt.{Bolt}
use l1_modular_blockchain.Bolt.Listing.{listed, All-Memᴰ}
use l1_modular_blockchain.State.{World, rows}
use l1_modular_blockchain.Block.{
  Transition, refund, finalize, slash, dismiss, is_due, due, collect, begin_block, next_height,
  verdict, effective_margin, commit_block,
}
use l1_modular_blockchain.Solvency.Stake.{Inv}
use l1_modular_blockchain.Solvency.Close.{EndedAs, request_stored}
use l1_modular_blockchain.Solvency.Sweeps.{Fresh, Swept}
use l1_modular_blockchain.Solvency.Blocks.{
  is_due→eq, target, rows_in_store, begin_block-Inv, Stages, commit_block_all,
}

eq→is_due : (t : Transition) (d : Option Transition) → d ≡ some t → is_due t d ≡ true
eq→is_due t d h = ground arith

module _ ⦃bolt : Bolt⦄ where
  open bolt use {get, cursor, get_lem}

  -- What a block makes of a request, from the transition that is due.
  abbrev pub Moved : World → InferenceRequest → Option Transition → Type 0
  Moved w' r none = get w'.requests r.id ≡ some r
  Moved w' r (some t) = EndedAs (target t) w' r

  -- A block takes one step of the clock, and every stored request takes the step that was due.
  pub record Ticked (w w' : World) : Type 0 where
    pub height : w'.height ≡ to_uint64 (next_height w)
    pub requests :
        (k : ℕ) (r : InferenceRequest)
        → get w.requests k ≡ some r
        → Moved w' r (due w (next_height w) r)
    pub same_services : w'.services ≡ w.services
    pub same_nonces : w'.nonces ≡ w.nonces
    pub same_params : w'.params ≡ w.params
    pub same_domains : w'.domains ≡ w.domains

  module _ {total : ℕ} (w : World) (v : Inv total w) (height : ℤ) (r : InferenceRequest)
      (here : get w.requests r.id ≡ some r) where
    -- What is due for another transition, or not due at all, is left out.
    left_out :
        (t : Transition)
        → due w height r ≢ some t
        → Fresh r.id (collect w height t (rows w.requests))
    unfolding collect
    left_out t other =
        let test = λ (x : InferenceRequest). is_due t (due w height x) in
        All-map₂ _ _ _ (collect w height t (rows w.requests))
          (λ x live hit same.
            let found : r ≡ x = cc (here, live, same) in
            other (ap (due w height) found ∙ is_due→eq t _ hit))
          (All-select _ test (rows w.requests) (rows_in_store w v))
          (select_test test (rows w.requests))

    taken :
        (t : Transition) → due w height r ≡ some t → Memᴰ r (collect w height t (rows w.requests))
    unfolding collect
    taken t now =
        listed (λ x. is_due t (due w height x)) r.id r (cursor w.requests)
          (sym (get_lem w.requests r.id) ∙ here) (eq→is_due t _ now)

    -- A sweep does not touch a request for which another transition is due, or none.
    passes :
        (t : Transition) (w1 w2 : World)
        → Swept total w1 (collect w height t (rows w.requests)) (target t) w2
        → due w height r ≢ some t
        → get w2.requests r.id ≡ get w1.requests r.id
    passes t w1 w2 s other = s.others r.id (left_out t other)

    -- A sweep ends the requests for which its transition is due.
    hits :
        (t : Transition) (w1 w2 : World)
        → Swept total w1 (collect w height t (rows w.requests)) (target t) w2
        → due w height r ≡ some t
        → EndedAs (target t) w2 r
    hits t w1 w2 s now = All-Memᴰ _ r _ s.ended (taken t now)

  pub EndedAs-later :
      (s : RequestStatus) (w1 w2 : World) (r : InferenceRequest)
      → get w2.requests r.id ≡ get w1.requests r.id
      → EndedAs s w1 r
      → EndedAs s w2 r
  EndedAs-later s w1 w2 r same h = (h.0, same ∙ h.1, h.2)

  -- The clock plays no part in what is due.
  due-begin_block :
      (w : World) (height : ℤ) (r : InferenceRequest)
      → due (begin_block w) height r ≡ due w height r
  unfolding due verdict effective_margin
  due-begin_block w height r = refl

  module _ {total : ℕ} (w w' : World) (v : Inv total w) (s : Stages total w w')
      (r : InferenceRequest) (here : get w.requests r.id ≡ some r) where
    abbrev past :
        (t : Transition) (w1 w2 : World)
        → Swept total w1 (collect (begin_block w) (next_height w) t (rows w.requests)) (target t) w2
        → due (begin_block w) (next_height w) r ≢ some t
        → get w2.requests r.id ≡ get w1.requests r.id
    past = passes (begin_block w) (begin_block-Inv w v) (next_height w) r here

    abbrev hit :
        (t : Transition) (w1 w2 : World)
        → Swept total w1 (collect (begin_block w) (next_height w) t (rows w.requests)) (target t) w2
        → due (begin_block w) (next_height w) r ≡ some t
        → EndedAs (target t) w2 r
    hit = hits (begin_block w) (begin_block-Inv w v) (next_height w) r here

    Stages-Moved :
        (d : Option Transition) → due (begin_block w) (next_height w) r ≡ d → Moved w' r d
    Stages-Moved none e =
        past dismiss s.after_slashes w' s.dismissals (λ x. cc)
        ∙ past slash s.after_finals s.after_slashes s.slashes (λ x. cc)
        ∙ past finalize s.after_refunds s.after_finals s.finals (λ x. cc)
        ∙ past refund (begin_block w) s.after_refunds s.refunds (λ x. cc)
        ∙ here
    Stages-Moved (some refund) e =
        EndedAs-later _ s.after_refunds w' r
          (past dismiss s.after_slashes w' s.dismissals (λ x. cc)
            ∙ past slash s.after_finals s.after_slashes s.slashes (λ x. cc)
            ∙ past finalize s.after_refunds s.after_finals s.finals (λ x. cc))
          (hit refund (begin_block w) s.after_refunds s.refunds e)
    Stages-Moved (some finalize) e =
        EndedAs-later _ s.after_finals w' r
          (past dismiss s.after_slashes w' s.dismissals (λ x. cc)
            ∙ past slash s.after_finals s.after_slashes s.slashes (λ x. cc))
          (hit finalize s.after_refunds s.after_finals s.finals e)
    Stages-Moved (some slash) e =
        EndedAs-later _ s.after_slashes w' r
          (past dismiss s.after_slashes w' s.dismissals (λ x. cc))
          (hit slash s.after_finals s.after_slashes s.slashes e)
    Stages-Moved (some dismiss) e = hit dismiss s.after_slashes w' s.dismissals e

  -- On a state that satisfies the invariant, commitBlock cannot fail. After it the height is the
  -- next one, no service, nonce, domain or parameter has changed, and each request that was stored
  -- has the status that the transition due for it at the next height ends in, with no other change
  -- than that of the height of its end and what it paid; if no transition was due, it is stored as
  -- it was.
  pub commit_block-Ticked :
      {total : ℕ} (w : World) (time : String)
      → Inv total w
      → Ends Never (λ x. Ticked w x.0) (commit_block w time)
  commit_block-Ticked w time v =
      weaken
        (λ x h.
          let s = h.2 in
          record {
            height =
                s.dismissals.same_height ∙ s.slashes.same_height ∙ s.finals.same_height
                ∙ s.refunds.same_height;
            requests = λ k r there.
                Stages-Moved w x.0 v s r (request_stored w v k r there) _
                  (due-begin_block w (next_height w) r);
            same_services =
                s.dismissals.same_services ∙ s.slashes.same_services ∙ s.finals.same_services
                ∙ s.refunds.same_services;
            same_nonces =
                s.dismissals.same_nonces ∙ s.slashes.same_nonces ∙ s.finals.same_nonces
                ∙ s.refunds.same_nonces;
            same_params =
                s.dismissals.same_params ∙ s.slashes.same_params ∙ s.finals.same_params
                ∙ s.refunds.same_params;
            same_domains =
                s.dismissals.same_domains ∙ s.slashes.same_domains ∙ s.finals.same_domains
                ∙ s.refunds.same_domains;
          })
        (commit_block_all w time v)
