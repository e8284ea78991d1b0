-- ===== src/Resolution/Dismiss.antt =====
-- `executeDismiss`.
use l1_modular_blockchain.Common.{
  ℕ, ◌+◌, ◌-◌, ◌*◌, ◌/◌, ◌%◌, ◌^◌, String, some, List, [], ◌∷◌, length, if◌then◌else◌, ltb,
}
use l1_modular_blockchain.Int64.{ℤ}
use l1_modular_blockchain.Types.{
  Coin, InferenceRequest, Voucher, Event, finalized, request_dismissed, is_positive,
}
use l1_modular_blockchain.Outcome.{Outcome, ok, ◌>>=◌}
use l1_modular_blockchain.Bolt.{Bolt}
use l1_modular_blockchain.State.{World, Account, module_escrow_addr, get_service, put_request}
use l1_modular_blockchain.State.Bank.{credit, debit, move, move_coin, move_bond, moved_bond}
use l1_modular_blockchain.Resolution.Vouchers.{first_challenge, provider_side}

-- `lostVoucherBondPool`: the bonds of the challenger's side, added up from the left at uint64.
unfoldable pub lost_bonds : ℕ → List Voucher → ℕ
lost_bonds pool [] = pool
lost_bonds pool (v ∷ vs) =
    lost_bonds
      (if v.supports_provider
        then pool
        else if is_positive v.bond
        then (pool + v.bond.amount) % 2 ^ 64
        else pool)
      vs

-- `rewardPool`
abbrev pub reward_pool : Coin → List Voucher → ℕ
reward_pool challenger_bond vs =
    ((if is_positive challenger_bond then challenger_bond.amount else 0) + lost_bonds 0 vs) % 2 ^ 64

module _ ⦃bolt : Bolt⦄ where
  open bolt use {Dict}

  unfoldable pub return_bonds : Dict Account → List Voucher → Outcome (Dict Account)
  return_bonds accs [] = ok accs
  return_bonds accs (v ∷ vs) =
      move_coin accs module_escrow_addr v.voucher v.bond >>= λ next. return_bonds next vs

  unfoldable pub pay_shares : Dict Account → ℕ → List Voucher → Outcome (Dict Account)
  pay_shares accs share [] = ok accs
  pay_shares accs share (v ∷ vs) = credit accs v.voucher share >>= λ next. pay_shares next share vs

  -- The pool in equal shares: one to each voucher, and one with the remainder to the owner.
  unfoldable pub share_pool : Dict Account → String → ℕ → List Voucher → Outcome (Dict Account)
  share_pool accs owner pool vs =
      let recipients = 1 + length vs in
      let share = pool / recipients in
      let remainder = pool - share * recipients in
      if ltb 0 pool
      then (debit accs module_escrow_addr pool >>= λ taken.
          credit taken owner (share + remainder) >>= λ paid. pay_shares paid share vs)
      else ok accs

  unfoldable pub execute_dismiss : World → InferenceRequest → ℤ → Outcome (World × Event)
  execute_dismiss w r height = do
    svc ← get_service w r.service_id
    challenge ← first_challenge r.challenges
    paid ← move w.accounts module_escrow_addr svc.owner r.escrow.amount
    released ← move_bond paid module_escrow_addr svc.owner r.provider_bond
    returned ← return_bonds released (provider_side r.vouchers)
    shared ←
        share_pool returned svc.owner (reward_pool challenge.bond r.vouchers)
          (provider_side r.vouchers)
    ok (
      put_request (record w { accounts = shared })
          (record r { status = finalized; finalized_at_height = height; paid = some r.escrow }),
      record {
        block_height = height;
        payload = request_dismissed (record {
          request_id = r.id;
          provider = svc.owner;
          challenger = challenge.challenger;
          paid = r.escrow;
          provider_bond_returned = moved_bond r.provider_bond;
          challenger_bond_forfeit = challenge.bond;
          voucher_count = length (provider_side r.vouchers);
        });
      },
    )
