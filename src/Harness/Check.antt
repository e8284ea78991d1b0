-- ===== src/Harness/Check.antt =====
-- `checkRequest` of determinism-harness/cmd/harness/main.go, without the notes and the times: the
-- verdict on a request, and what is filed about it.
use l1_modular_blockchain.Common.{
  ℕ, String, Bool, true, false, not, ◌||◌, Option, none, some, List, [], ◌∷◌, if◌then◌else◌, str_eq,
  is_some,
}
use l1_modular_blockchain.Types.{InferenceRequest, Result, RequestStatus, challenged, Challenge}
use l1_modular_blockchain.State.Reads.{strip_prefix}
use l1_modular_blockchain.Tx.Wire.{Codec}
use l1_modular_blockchain.Node.Executor.{Model, hash_of}

-- OK, DIVERGENT, ERROR, SKIPPED
pub data Verdict : Type 0 where
  verified divergent error skipped : Verdict

pub data Action : Type 0 where
  abstain file_vouch file_challenge : Action

-- `Result` of the harness, with what is to be filed.
pub record Check : Type 0 where
  pub request_id : ℕ
  pub service_id : ℕ
  pub verification_domain_id : ℕ
  pub chain_output_hash : String
  pub replay_output_hash : String
  pub verdict : Verdict
  pub action : Action

abbrev pub is_disputed : RequestStatus → Bool
is_disputed challenged = true
is_disputed _ = false

-- Whether some challenger has the hash.
abbrev pub has_challenger : String → List Challenge → Bool
has_challenger hash [] = false
has_challenger hash (c ∷ cs) = str_eq c.attestation.output_hash hash || has_challenger hash cs

-- The part after the replay.
unfoldable pub action_on : Bool → RequestStatus → List Challenge → String → String → Action
action_on has_signer status challenges chain_hash replay_hash =
    if str_eq replay_hash chain_hash
    then if is_disputed status then if has_signer then file_vouch else abstain else abstain
    else if not has_signer
    then abstain
    else if is_disputed status
    then if has_challenger replay_hash challenges then file_vouch else abstain
    else file_challenge

module _ (codec : Codec) (model : Model) (has_signer : Bool) where
  abbrev concluded : ℕ → InferenceRequest → Result → String → Verdict → Action → Check
  concluded id full result hash verdict action = record {
    request_id = id;
    service_id = full.service_id;
    verification_domain_id = result.attestation.verification_domain_id;
    chain_output_hash = result.output_hash;
    replay_output_hash = hash;
    verdict = verdict;
    action = action;
  }

  abbrev pub compare_replay : ℕ → InferenceRequest → Result → Option String → Check
  compare_replay id full result none = concluded id full result "" error abstain
  compare_replay id full result (some output) =
      let hash = hash_of codec model output in
      concluded id full result hash (if str_eq hash result.output_hash then verified else divergent)
        (action_on has_signer full.status full.challenges result.output_hash hash)

  abbrev pub check_result : ℕ → InferenceRequest → Option Result → Check
  check_result id full none = record {
    request_id = id;
    service_id = full.service_id;
    verification_domain_id = 0;
    chain_output_hash = "";
    replay_output_hash = "";
    verdict = error;
    action = abstain;
  }
  check_result id full (some result) =
      if not (is_some (strip_prefix "inline:" full.input_uri))
      then concluded id full result "" skipped abstain
      else if str_eq full.input_text ""
      then concluded id full result "" error abstain
      else compare_replay id full result (model.complete full.input_text)

  -- `fetched` is what the chain answers; a call that fails is `none`.
  abbrev pub check_fetched : ℕ → Option InferenceRequest → Check
  check_fetched id none = record {
    request_id = id;
    service_id = 0;
    verification_domain_id = 0;
    chain_output_hash = "";
    replay_output_hash = "";
    verdict = error;
    action = abstain;
  }
  check_fetched id (some full) = check_result id full full.result

  unfoldable pub check_request : ℕ → Option InferenceRequest → Check
  unfolding action_on
  check_request id fetched = check_fetched id fetched
