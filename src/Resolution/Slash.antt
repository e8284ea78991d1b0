-- ===== src/Resolution/Slash.antt =====
-- `executeSlash`.
use l1_modular_blockchain.Common.{String, true, false, List, [], ◌∷◌, if◌then◌else◌}
use l1_modular_blockchain.Int64.{ℤ}
use l1_modular_blockchain.Types.{InferenceRequest, Voucher, Event, slashed, request_slashed}
use l1_modular_blockchain.Outcome.{Outcome, ok, ◌>>=◌}
use l1_modular_blockchain.Bolt.{Bolt}
use l1_modular_blockchain.State.{
  World, Account, module_escrow_addr, module_treasury_addr, get_service, put_request,
}
use l1_modular_blockchain.State.Bank.{move, move_coin, move_bond, moved_coin, moved_bond}
use l1_modular_blockchain.Resolution.Vouchers.{first_challenge, count_bonds}

-- Who gets a voucher's bond: the treasury, if the voucher backed the provider, who lost.
abbrev pub slash_payee : Voucher → String
slash_payee v = if v.supports_provider then module_treasury_addr else v.voucher

module _ ⦃bolt : Bolt⦄ where
  open bolt use {Dict}

  unfoldable pub settle_slashed : Dict Account → List Voucher → Outcome (Dict Account)
  settle_slashed accs [] = ok accs
  settle_slashed accs (v ∷ vs) =
      move_coin accs module_escrow_addr (slash_payee v) v.bond >>= λ next. settle_slashed next vs

  unfoldable pub execute_slash : World → InferenceRequest → ℤ → Outcome (World × Event)
  execute_slash w r height = do
    svc ← get_service w r.service_id
    challenge ← first_challenge r.challenges
    refunded ← move w.accounts module_escrow_addr r.requester r.escrow.amount
    rewarded ← move_bond refunded module_escrow_addr challenge.challenger r.provider_bond
    returned ← move_coin rewarded module_escrow_addr challenge.challenger challenge.bond
    settled ← settle_slashed returned r.vouchers
    ok (
      put_request (record w { accounts = settled })
          (record r { status = slashed; finalized_at_height = height }),
      record {
        block_height = height;
        payload = request_slashed (record {
          request_id = r.id;
          provider = svc.owner;
          challenger = challenge.challenger;
          refunded = r.escrow;
          provider_bond_slashed = moved_bond r.provider_bond;
          challenger_bond_returned = moved_coin challenge.bond;
          voucher_bonds_forfeited_to_treasury = count_bonds true r.vouchers;
          challenger_voucher_bonds_returned = count_bonds false r.vouchers;
        });
      },
    )
