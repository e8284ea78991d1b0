-- ===== src/Solvency/Stake.antt =====
-- What is locked for a request and for a service, and the invariant.
use l1_modular_blockchain.Common.{
  String, ℕ, ◌+◌, ◌<◌, ◌≡◌, ◌≢◌, true, none, List, [], ◌∷◌, is_some, sum_by, All,
}
use l1_modular_blockchain.Types.{
  Service, InferenceRequest, RequestStatus, pending, submitted, challenged, Challenge, Voucher,
}
use l1_modular_blockchain.Bolt.{Bolt, weigh}
use l1_modular_blockchain.State.{World, module_escrow_addr}
use l1_modular_blockchain.State.Bank.Funds.{Holds}
use l1_modular_blockchain.State.Bank.Payments.{bond_amount}

abbrev pub first_bond : List Challenge → ℕ
first_bond [] = 0
first_bond (c ∷ cs) = c.bond.amount

abbrev pub voucher_bonds : List Voucher → ℕ
voucher_bonds = sum_by λ v. v.bond.amount

abbrev pub stake_in : InferenceRequest → RequestStatus → ℕ
stake_in r pending = r.escrow.amount
stake_in r submitted = r.escrow.amount + bond_amount r.provider_bond
stake_in r challenged =
    r.escrow.amount
    + bond_amount r.provider_bond
    + first_bond r.challenges
    + voucher_bonds r.vouchers
stake_in r _ = 0

-- What the escrow account holds for a request, by its status.
abbrev pub stake : InferenceRequest → ℕ
stake r = stake_in r r.status

abbrev pub service_bond : Service → ℕ
service_bond svc = svc.registration_bond.amount

module _ ⦃bolt : Bolt⦄ where
  open bolt use {Table, Dict, get, put, cursor, cursor-put, get_lem, accepts}

  abbrev pub IsVoucher : Voucher → Type 0
  IsVoucher v = accepts v.voucher ≡ true

  abbrev pub OneChallenge : List Challenge → Type 0
  OneChallenge [] = ⊥
  OneChallenge (c ∷ []) = accepts c.challenger ≡ true
  OneChallenge (c ∷ d ∷ cs) = ⊥

  -- What a request has and lacks in each status.
  abbrev pub HasShape : InferenceRequest → RequestStatus → Type 0
  HasShape r pending = (r.provider_bond ≡ none) × (r.challenges ≡ []) × (r.vouchers ≡ [])
  HasShape r submitted = (is_some r.result ≡ true) × (r.challenges ≡ []) × (r.vouchers ≡ [])
  HasShape r challenged =
      (is_some r.result ≡ true) × OneChallenge r.challenges × All IsVoucher r.vouchers
  HasShape r _ = Unit

  pub record IsSound (svcs : Table Service) (r : InferenceRequest) : Type 0 where
    pub served : is_some (get svcs r.service_id) ≡ true
    pub payable : accepts r.requester ≡ true
    pub shaped : HasShape r r.status

  abbrev pub SoundEntry : Table Service → ℕ × InferenceRequest → Type 0
  SoundEntry svcs e = (e.0 ≡ e.1.id) × IsSound svcs e.1

  abbrev pub OwnedEntry : ℕ × Service → Type 0
  OwnedEntry e = (e.0 ≡ e.1.id) × (accepts e.1.owner ≡ true)

  -- All that is locked.
  abbrev pub locked_in : Table InferenceRequest → Table Service → ℕ
  locked_in requests svcs = weigh stake (cursor requests) + weigh service_bond (cursor svcs)

  abbrev pub locked : World → ℕ
  locked w = locked_in w.requests w.services

  pub record Inv (total : ℕ) (w : World) : Type 0 where
    pub funded : Holds total 0 (locked w) w.accounts
    pub sound : All (SoundEntry w.services) (cursor w.requests)
    pub owned : All OwnedEntry (cursor w.services)
    pub fresh_requests : All (λ e. e.0 < w.next_req_id) (cursor w.requests)
    pub fresh_services : All (λ e. e.0 < w.next_svc_id) (cursor w.services)

  -- Who can sign: not the escrow account, and bbolt takes the address as a key.
  pub record IsSigner (addr : String) : Type 0 where
    pub apart : module_escrow_addr ≢ addr
    pub storable : accepts addr ≡ true
