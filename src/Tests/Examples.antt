-- ===== src/Tests/Examples.antt =====
-- The theorems at concrete states of the chain.
use l1_modular_blockchain.Common.{
  ℕ, List, [], ◌∷◌, ◌++◌, ◌≡◌, ◌≢◌, ◌≤◌, ◌+◌, refl, arith, str_eq, String, length, drop, some,
  false,
}
use l1_modular_blockchain.Int64.{pos, to_int64, add_int64, sub_int64}
use l1_modular_blockchain.Types.{
  Event, block_committed, default_params, finalized, slashed, refunded,
}
use l1_modular_blockchain.Outcome.{
  Outcome, ok, err, Ends, Any, Never, Ends-Never, refuse_if, or_fail,
}
use l1_modular_blockchain.State.{World, init, mint, put_service, voucher_eligible}
use l1_modular_blockchain.Tx.Attest.{check_attestation}
use l1_modular_blockchain.State.Keys.{uint64_key, get_uint64, get_uint64-uint64_key}
use l1_modular_blockchain.State.Log.{emit, emit-log, event_log_limit}
use l1_modular_blockchain.State.Bank.{account, move_coin, move, credit, debit}
use l1_modular_blockchain.Resolution.Slash.{execute_slash}
use l1_modular_blockchain.Resolution.Dismiss.{execute_dismiss}
use l1_modular_blockchain.Resolution.Void.{execute_void}
use l1_modular_blockchain.Tx.Wire.{
  authenticate, validate_basic, tx_type, decode_hex, hex_value, hex_digit, encode_hex,
  canonical_bytes, transfer, address_from_pub_key,
}
use l1_modular_blockchain.Tx.Submit.{dispatch, inc_nonce, submit_tx, TxReceipt, receipt}
use l1_modular_blockchain.Tx.Disputes.{
  apply_vouch, check_voucher, side_of, has_vouched, voucher_bond,
}
use l1_modular_blockchain.Tx.Services.{apply_deactivate_service, refund_due}
use l1_modular_blockchain.Tx.Accounts.{apply_transfer}
use l1_modular_blockchain.Block.{refund_request, finalize_request, commit_block}
use l1_modular_blockchain.Solvency.Stake.{Inv, IsSigner}
use l1_modular_blockchain.Solvency.Close.{Resolves}
use l1_modular_blockchain.Solvency.Outcomes.{
  refund_request-Resolves, finalize_request-Resolves, execute_slash-Resolves,
  execute_dismiss-Resolves,
}
use l1_modular_blockchain.Solvency.Voids.{execute_void-Resolves}
use l1_modular_blockchain.Solvency.Blocks.{commit_block-Inv}
use l1_modular_blockchain.Solvency.Signers.{address-IsSigner}
use l1_modular_blockchain.Solvency.Submits.{submit_tx-Inv}
use l1_modular_blockchain.Solvency.History.{Reach, opened, minted, Reach-Inv, Reach-commit_block}
use l1_modular_blockchain.Solvency.Once.{
  apply_vouch-once, IsClosed, apply_deactivate_service-IsClosed, apply_deactivate_service-once,
}
use l1_modular_blockchain.Solvency.Replay.{Accepts, submit_tx-Accepts, submit_tx-replay}
use l1_modular_blockchain.Solvency.Forever.{now, committed, Later-final}
use l1_modular_blockchain.Solvency.Transfers.{Transferred, apply_transfer-Transferred}
use l1_modular_blockchain.Tests.Fixtures.{
  ann_pays, settled, bolt, chain, chain-Inv, codec, transfer_tx, waiting, answered, contested,
  fay_vouches, ann_leaves,
}

-- What a step returned.
abbrev result_or {ℓ} : {A : Type ℓ} → A → Outcome A → A
result_or a (ok b) = b
result_or a (err e) = a

abbrev funded : World
unfolding mint
funded = result_or init (mint init "bob" 5)

funded_Reach : Reach codec (0 + 5) funded
unfolding mint account credit
funded_Reach = minted "bob" 5 opened refl

abbrev tick : Event
tick = record {
  block_height = pos 1;
  payload = block_committed (record { height = pos 1; time = "" });
}

abbrev fay_vouched : World × Event
unfolding apply_vouch
fay_vouched = result_or (chain, tick) (apply_vouch chain "fay" fay_vouches (pos 10))

fay_vouched_lem : apply_vouch chain "fay" fay_vouches (pos 10) ≡ ok (fay_vouched.0, fay_vouched.1)
unfolding apply_vouch str_eq account refuse_if or_fail check_voucher check_attestation
    voucher_eligible side_of move_coin move credit debit has_vouched add_int64 voucher_bond
    default_params
fay_vouched_lem = refl

abbrev ann_left : World × Event
unfolding apply_deactivate_service
ann_left = result_or (chain, tick) (apply_deactivate_service chain "ann" ann_leaves (pos 2000))

ann_left_lem :
    apply_deactivate_service chain "ann" ann_leaves (pos 2000) ≡ ok (ann_left.0, ann_left.1)
unfolding apply_deactivate_service str_eq account refuse_if or_fail move_coin move credit debit
    put_service refund_due default_params sub_int64
ann_left_lem = refl

abbrev payer : String
payer = "aios10102030405060708090a0b0c0d0e0f1011121314"

payer_signs : authenticate codec transfer_tx ≡ ok (transfer, payer)
unfolding authenticate validate_basic or_fail tx_type str_eq refuse_if decode_hex hex_value
    canonical_bytes address_from_pub_key encode_hex hex_digit
payer_signs = refl

payer-IsSigner : IsSigner payer
payer-IsSigner = record { apart = λ e. cc; storable = refl }

payer_apart : payer ≢ "bob"
payer_apart e = cc

abbrev paid : World × TxReceipt
unfolding submit_tx
paid = result_or (chain, receipt transfer 0 false []) (submit_tx codec chain transfer_tx)

paid_lem : submit_tx codec chain transfer_tx ≡ ok (paid.0, paid.1)
unfolding submit_tx authenticate validate_basic or_fail tx_type str_eq refuse_if decode_hex
    hex_value canonical_bytes dispatch apply_transfer address_from_pub_key encode_hex hex_digit move
    debit credit account inc_nonce to_int64
paid_lem = refl

-- The block that is committed at noon.
abbrev noon : World × List Event
noon = (Ends-Never (commit_block-Inv chain "noon" chain-Inv)).0

noon_lem : commit_block chain "noon" ≡ ok (noon.0, noon.1)
noon_lem = (Ends-Never (commit_block-Inv chain "noon" chain-Inv)).1

Reach-Inv_example : Inv 5 funded
Reach-Inv_example = Reach-Inv codec (omega arith) funded_Reach

Reach-commit_block_example : (next : World × List Event) × (commit_block funded "noon" ≡ ok next)
Reach-commit_block_example = Reach-commit_block codec "noon" (omega arith) funded_Reach

submit_tx-Inv_example : Ends Any (λ x. Inv 1000 x.0) (submit_tx codec chain transfer_tx)
submit_tx-Inv_example =
    submit_tx-Inv codec chain transfer_tx chain-Inv
      (record { services = omega arith; requests = omega arith })

commit_block-Inv_example : Ends Never (λ x. Inv 1000 x.0) (commit_block chain "noon")
commit_block-Inv_example = commit_block-Inv chain "noon" chain-Inv

execute_dismiss-Resolves_example :
    Ends Never
      (λ x. Resolves 1000 chain contested finalized x.0)
      (execute_dismiss chain contested (pos 101))
execute_dismiss-Resolves_example =
    execute_dismiss-Resolves chain chain-Inv contested refl (pos 101) refl

execute_slash-Resolves_example :
    Ends Never
      (λ x. Resolves 1000 chain contested slashed x.0)
      (execute_slash chain contested (pos 101))
execute_slash-Resolves_example =
    execute_slash-Resolves chain chain-Inv contested refl (pos 101) refl

execute_void-Resolves_example :
    Ends Never
      (λ x. Resolves 1000 chain contested refunded x.0)
      (execute_void chain contested (pos 101))
execute_void-Resolves_example = execute_void-Resolves chain chain-Inv contested refl (pos 101) refl

finalize_request-Resolves_example :
    Ends Never
      (λ x. Resolves 1000 chain answered finalized x.0)
      (finalize_request chain answered (pos 101))
finalize_request-Resolves_example =
    finalize_request-Resolves chain chain-Inv answered refl (pos 101) refl

refund_request-Resolves_example :
    Ends Never
      (λ x. Resolves 1000 chain waiting refunded x.0)
      (refund_request chain waiting (pos 101))
refund_request-Resolves_example =
    refund_request-Resolves chain chain-Inv waiting refl (pos 101) refl

apply_vouch-once_example : apply_vouch fay_vouched.0 "fay" fay_vouches (pos 11) ≢ ok (chain, tick)
apply_vouch-once_example =
    apply_vouch-once chain fay_vouched.0 "fay" fay_vouches fay_vouches (pos 10) (pos 11)
      fay_vouched.1 chain-Inv fay_vouched_lem refl (chain, tick)

apply_deactivate_service-IsClosed_example :
    Ends Any (λ x. IsClosed x.0 1) (apply_deactivate_service chain "ann" ann_leaves (pos 2000))
apply_deactivate_service-IsClosed_example =
    apply_deactivate_service-IsClosed chain "ann" ann_leaves (pos 2000) chain-Inv

apply_deactivate_service-once_example :
    apply_deactivate_service ann_left.0 "ann" ann_leaves (pos 2001) ≢ ok (chain, tick)
apply_deactivate_service-once_example =
    apply_deactivate_service-once chain ann_left.0 "ann" "ann" ann_leaves ann_leaves (pos 2000)
      (pos 2001) ann_left.1 chain-Inv ann_left_lem refl (chain, tick)

address-IsSigner_example : IsSigner (address_from_pub_key codec [])
address-IsSigner_example = address-IsSigner codec []

get_uint64-uint64_key_example : get_uint64 (uint64_key 513) ≡ 513
get_uint64-uint64_key_example = get_uint64-uint64_key 513 (omega arith)

emit-log_example :
    (length (emit (tick ∷ []) tick) ≤ event_log_limit)
    × ((dropped : ℕ) × (dropped ≤ 1)
        × (emit (tick ∷ []) tick ≡ drop dropped (tick ∷ []) ++ tick ∷ []))
emit-log_example = emit-log (tick ∷ []) tick (omega arith)

submit_tx-Accepts_example :
    Ends Any (λ x. Accepts transfer_tx payer chain x.0) (submit_tx codec chain transfer_tx)
submit_tx-Accepts_example =
    submit_tx-Accepts codec chain transfer_tx transfer payer chain-Inv payer_signs

submit_tx-replay_example :
    submit_tx codec paid.0 transfer_tx ≢ ok (chain, receipt transfer 0 false [])
submit_tx-replay_example =
    submit_tx-replay codec chain paid.0 transfer_tx transfer payer paid.1 chain-Inv payer_signs
      paid_lem (chain, receipt transfer 0 false [])

Later-final_example : bolt.get noon.0.requests 4 ≡ some settled
Later-final_example =
    Later-final codec chain noon.0 4 settled chain-Inv (committed "noon" noon.1 now noon_lem) refl
      refl

apply_transfer-Transferred_example :
    Ends Any
      (λ w'. (payer ≡ payer) × Transferred payer "bob" 5 chain w')
      (apply_transfer chain payer ann_pays)
apply_transfer-Transferred_example =
    apply_transfer-Transferred chain payer ann_pays chain-Inv payer-IsSigner payer_apart
