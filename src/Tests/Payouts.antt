-- ===== src/Tests/Payouts.antt =====
-- The payment lists at a concrete state of the chain.
use l1_modular_blockchain.Common.{refl}
use l1_modular_blockchain.Int64.{pos}
use l1_modular_blockchain.Outcome.{Ends, Never}
use l1_modular_blockchain.Resolution.Slash.{execute_slash}
use l1_modular_blockchain.Resolution.Dismiss.{execute_dismiss}
use l1_modular_blockchain.Resolution.Void.{execute_void}
use l1_modular_blockchain.Block.{refund_request, finalize_request}
use l1_modular_blockchain.Payouts.Moves.{Pays}
use l1_modular_blockchain.Payouts.Spec.{
  refund_payments, finalize_payments, slash_payments, dismiss_payments, void_payments,
}
use l1_modular_blockchain.Payouts.Endings.{
  refund_request-Pays, finalize_request-Pays, execute_slash-Pays, execute_dismiss-Pays,
  execute_void-Pays,
}
use l1_modular_blockchain.Tests.Fixtures.{
  bolt, chain, chain-Inv, waiting, answered, contested, dispute, model,
}

refund_request-Pays_example :
    Ends Never
      (λ x. Pays (refund_payments waiting) chain.accounts x.0.accounts)
      (refund_request chain waiting (pos 101))
refund_request-Pays_example = refund_request-Pays chain chain-Inv waiting refl (pos 101) refl

finalize_request-Pays_example :
    Ends Never
      (λ x. Pays (finalize_payments answered "ann") chain.accounts x.0.accounts)
      (finalize_request chain answered (pos 101))
finalize_request-Pays_example =
    finalize_request-Pays chain chain-Inv answered refl (pos 101) model refl refl

execute_slash-Pays_example :
    Ends Never
      (λ x. Pays (slash_payments contested dispute) chain.accounts x.0.accounts)
      (execute_slash chain contested (pos 101))
execute_slash-Pays_example =
    execute_slash-Pays chain chain-Inv contested refl (pos 101) model refl dispute refl refl

execute_dismiss-Pays_example :
    Ends Never
      (λ x. Pays (dismiss_payments contested "ann" dispute) chain.accounts x.0.accounts)
      (execute_dismiss chain contested (pos 101))
execute_dismiss-Pays_example =
    execute_dismiss-Pays chain chain-Inv contested refl (pos 101) model refl dispute refl refl

execute_void-Pays_example :
    Ends Never
      (λ x. Pays (void_payments contested "ann") chain.accounts x.0.accounts)
      (execute_void chain contested (pos 101))
execute_void-Pays_example =
    execute_void-Pays chain chain-Inv contested refl (pos 101) model refl refl
