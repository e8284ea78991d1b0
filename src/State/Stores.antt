-- ===== src/State/Stores.antt =====
-- The stores of services, requests and verification domains.
use l1_modular_blockchain.Common.{
  ℕ, String, Bool, true, false, ◌&&◌, List, [], ◌∷◌, ◌==◌, if◌then◌else◌, str_eq, map,
}
use l1_modular_blockchain.Types.{
  Service, InferenceRequest, VerificationDomain, service_not_found, request_not_found,
  domain_not_found,
}
use l1_modular_blockchain.Outcome.{Outcome, ok, ◌>>=◌, or_fail}
use l1_modular_blockchain.Bolt.{Bolt}
use l1_modular_blockchain.State.Chain.{World}
use l1_modular_blockchain.State.Bank.{put_text}

module _ ⦃bolt : Bolt⦄ where
  open bolt use {Table, get, put, cursor}

  -- The name index takes the key or not; the row itself is always written.
  unfoldable pub put_service : World → Service → Outcome World
  put_service w svc = do
    names ← put_text w.svc_by_name svc.name svc.id
    ok (record w { services = put w.services svc.id svc; svc_by_name = names })

  abbrev pub get_service : World → ℕ → Outcome Service
  get_service w id = or_fail (get w.services id) service_not_found

  abbrev pub put_request : World → InferenceRequest → World
  put_request w r = record w { requests = put w.requests r.id r }

  abbrev pub get_request : World → ℕ → Outcome InferenceRequest
  get_request w id = or_fail (get w.requests id) request_not_found

  abbrev pub put_domain : World → VerificationDomain → World
  put_domain w d = record w { domains = put w.domains d.id d }

  abbrev pub get_domain : World → ℕ → Outcome VerificationDomain
  get_domain w id = or_fail (get w.domains id) domain_not_found

  -- The services, requests and domains that a cursor walks.
  abbrev pub rows : {V : Type 0} → Table V → List V
  rows t = map (λ e. e.1) (cursor t)

  -- `voucherEligible`: an active service of the owner in the domain.
  unfoldable pub runs_active_service : String → ℕ → List Service → Bool
  runs_active_service owner domain_id [] = false
  runs_active_service owner domain_id (svc ∷ svcs) =
      if str_eq svc.owner owner && svc.verification_domain_id == domain_id && svc.active
      then true
      else runs_active_service owner domain_id svcs

  unfoldable pub voucher_eligible : World → String → ℕ → Bool
  voucher_eligible w owner domain_id =
      if domain_id == 0 then true else runs_active_service owner domain_id (rows w.services)
