-- ===== src/Tx/Attest.antt =====
-- The check of an attestation against a service's verification domain, which submissions,
-- challenges and vouches share.
use l1_modular_blockchain.Common.{Bool, not, ◌&&◌, ◌||◌, ◌==◌, if◌then◌else◌, str_eq}
use l1_modular_blockchain.Types.{
  Attestation, VerificationDomain, Service, attestation_domain_mismatch,
}
use l1_modular_blockchain.Outcome.{Outcome, ok, ◌>>=◌, ◌>>◌, refuse_if}
use l1_modular_blockchain.Bolt.{Bolt}
use l1_modular_blockchain.State.{World, get_domain}

-- `att`'s tuple is that of the domain.
unfoldable pub same_tuple : Attestation → VerificationDomain → Bool
same_tuple att dom =
    att.verification_domain_id == dom.id
    && str_eq att.model_sha256 dom.model_sha256
    && str_eq att.runtime_id dom.runtime_id
    && str_eq att.hardware_tag dom.hardware_tag
    && str_eq att.precision dom.precision

-- A domain without a tokenizer accepts any.
unfoldable pub same_tokenizer : Attestation → VerificationDomain → Bool
same_tokenizer att dom = str_eq dom.tokenizer_id "" || str_eq att.tokenizer_id dom.tokenizer_id

module _ ⦃bolt : Bolt⦄ where
  unfoldable pub check_domain : World → Attestation → VerificationDomain → Outcome (Unit {0})
  check_domain w att dom = do
    refuse_if (not (same_tuple att dom)) attestation_domain_mismatch
    refuse_if (not (same_tokenizer att dom)) attestation_domain_mismatch

  -- A service with no domain is not checked.
  unfoldable pub check_attestation : World → Service → Attestation → Outcome (Unit {0})
  unfolding check_domain
  check_attestation w svc att =
      if svc.verification_domain_id == 0
      then ok tt
      else (get_domain w svc.verification_domain_id >>= λ dom. check_domain w att dom)
