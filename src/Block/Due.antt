-- ===== src/Block/Due.antt =====
-- Which transition is due for a request at a height.
use l1_modular_blockchain.Common.{
  select, ℕ, ◌+◌, Bool, true, false, ◌&&◌, Option, none, some, List, [], ◌∷◌, ltb, ◌==◌,
  if◌then◌else◌,
}
use l1_modular_blockchain.Int64.{ℤ, pos, ltb_ℤ, leb_ℤ, add_int64, ◌-ℤ◌}
use l1_modular_blockchain.Types.{
  Service, VerificationDomain, InferenceRequest, RequestStatus, pending, submitted, challenged,
  Challenge, Voucher,
}
use l1_modular_blockchain.Bolt.{Bolt}
use l1_modular_blockchain.State.{World}
use l1_modular_blockchain.Tx.Disputes.{challenge_resolution_window_blocks}

pub data Transition : Type 0 where
  refund finalize slash dismiss : Transition

-- How many vouchers stand on a side.
abbrev pub votes : Bool → List Voucher → ℕ
votes side [] = 0
votes side (v ∷ vs) =
    (if v.supports_provider then (if side then 1 else 0) else (if side then 0 else 1))
    + votes side vs

-- A domain's own margin, if it sets one, else the global one.
abbrev pub domain_margin : ℤ → Option VerificationDomain → ℤ
domain_margin margin none = margin
domain_margin margin (some d) = if ltb_ℤ (pos 0) d.voucher_margin then d.voucher_margin else margin

abbrev pub is_due : Transition → Option Transition → Bool
is_due refund (some refund) = true
is_due finalize (some finalize) = true
is_due slash (some slash) = true
is_due dismiss (some dismiss) = true
is_due t d = false

module _ ⦃bolt : Bolt⦄ where
  open bolt use {get}

  abbrev pub service_margin : World → Option Service → ℤ
  service_margin w none = w.params.voucher_margin
  service_margin w (some svc) =
      if svc.verification_domain_id == 0
      then w.params.voucher_margin
      else domain_margin w.params.voucher_margin (get w.domains svc.verification_domain_id)

  unfoldable pub effective_margin : World → InferenceRequest → ℤ
  effective_margin w r = service_margin w (get w.services r.service_id)

  -- The vouchers decide: the provider needs one at least, and the margin over the other side.
  unfoldable pub verdict : World → InferenceRequest → Transition
  unfolding effective_margin
  verdict w r =
      if ltb 0 (votes true r.vouchers)
        && leb_ℤ (effective_margin w r)
            (pos (votes true r.vouchers) -ℤ pos (votes false r.vouchers))
      then dismiss
      else slash

  abbrev pub resolution_due : World → InferenceRequest → ℤ → List Challenge → Option Transition
  resolution_due w r height [] = none
  resolution_due w r height (c ∷ cs) =
      if leb_ℤ height (add_int64 c.posted_at challenge_resolution_window_blocks)
      then none
      else some (verdict w r)

  abbrev pub due_in : World → InferenceRequest → ℤ → RequestStatus → Option Transition
  due_in w r height pending = if ltb_ℤ r.deadline_height height then some refund else none
  due_in w r height submitted =
      if ltb_ℤ (add_int64 r.submitted_at_height w.params.challenge_window_blocks) height
      then some finalize
      else none
  due_in w r height challenged = resolution_due w r height r.challenges
  due_in w r height _ = none

  unfoldable pub due : World → ℤ → InferenceRequest → Option Transition
  due w height r = due_in w r height r.status

  -- `toRefund`, `toFinalize`, `toSlash`, `toDismiss`
  unfoldable pub collect : World → ℤ → Transition → List InferenceRequest → List InferenceRequest
  unfolding due
  collect w height t = select λ r. is_due t (due w height r)
