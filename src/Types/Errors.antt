-- ===== src/Types/Errors.antt =====
-- The errors of chain/internal/types/types.go, and the errors of the handlers that have no name
-- there.
pub data Error : Type 0 where
  invalid_signature invalid_nonce invalid_address service_not_found service_inactive : Error
  duplicate_name insufficient_funds insufficient_price invalid_deadline : Error
  request_not_found request_not_pending wrong_provider input_hash_mismatch zero_price : Error
  empty_name domain_not_found domain_inactive attestation_domain_mismatch unauthorized : Error
  challenge_window_closed challenge_not_applicable challenge_output_matches : Error
  vouch_not_applicable vouch_hash_mismatch vouch_duplicate vouch_not_eligible not_owner : Error
  service_already_inactive invalid_decision : Error
  -- `fmt.Errorf` and `errors.New` with no named error inside
  signer_mismatch domain_fields_required negative_margin broken_invariant unknown_tx_type : Error
  pub_key_required signature_required payload_required malformed_hex malformed_payload : Error
  key_not_found request_not_submitted key_not_generated keyring_not_written : Error
  -- what bbolt's `Put` answers to a key that it does not take
  key_rejected : Error
  -- a run-time panic: an index out of range
  panicked : Error
