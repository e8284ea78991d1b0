-- ===== src/Api/Lists.antt =====
-- About `ListRequests` of chain/internal/state/state.go.
use mathlib.Core.List.{Memᴰ}
use l1_modular_blockchain.Common.{
  ℕ, ◌≡◌, ◌≢◌, ◌↔◌, refl, sym, ◌∙◌, ap, String, Bool, true, false, ◌&&◌, ◌||◌, Option, none, some,
  All-select, select_test, str_eq, str_eq_refl, str_eq→eq, arith, ◌==◌, if◌then◌else◌,
}
use l1_modular_blockchain.Types.{
  InferenceRequest, RequestStatus, pending, submitted, challenged, finalized, slashed, refunded,
}
use l1_modular_blockchain.Bolt.{Bolt}
use l1_modular_blockchain.Bolt.Listing.{listed, All-Memᴰ}
use l1_modular_blockchain.State.{World, rows}
use l1_modular_blockchain.State.Reads.{list_requests, is_listed, status_text}
use l1_modular_blockchain.Solvency.Stake.{Inv}
use l1_modular_blockchain.Solvency.Blocks.{rows_in_store, rows_in_order}
use l1_modular_blockchain.Solvency.Sweeps.{Distinct, select-Distinct}

-- The two filters as a caller writes them: `none` lets all pass.
abbrev pub status_filter : Option RequestStatus → String
status_filter none = ""
status_filter (some s) = status_text s

abbrev pub service_filter : Option ℕ → ℕ
service_filter none = 0
service_filter (some n) = n

-- The value is the one that is asked for, if one is.
abbrev pub Wanted : {A : Type 0} → Option A → A → Type 0
Wanted none x = Unit
Wanted (some y) x = x ≡ y

-- A status by its text.
read_status : String → RequestStatus
read_status s =
    if str_eq s "PENDING"
    then pending
    else if str_eq s "SUBMITTED"
    then submitted
    else if str_eq s "CHALLENGED"
    then challenged
    else if str_eq s "FINALIZED"
    then finalized
    else if str_eq s "SLASHED"
    then slashed
    else refunded

read_status-status_text : (s : RequestStatus) → read_status (status_text s) ≡ s
unfolding read_status status_text str_eq
read_status-status_text pending = refl
read_status-status_text submitted = refl
read_status-status_text challenged = refl
read_status-status_text finalized = refl
read_status-status_text slashed = refl
read_status-status_text refunded = refl

status_text-nonempty : (s : RequestStatus) → str_eq (status_text s) "" ≡ false
unfolding status_text str_eq
status_text-nonempty pending = refl
status_text-nonempty submitted = refl
status_text-nonempty challenged = refl
status_text-nonempty finalized = refl
status_text-nonempty slashed = refl
status_text-nonempty refunded = refl

abbrev status_passes : String → RequestStatus → Bool
status_passes filter s = str_eq filter "" || str_eq (status_text s) filter

abbrev service_passes : ℕ → ℕ → Bool
service_passes filter n = filter == 0 || n == filter

status_passes-Wanted :
    (status : Option RequestStatus) (s : RequestStatus)
    → (status_passes (status_filter status) s ≡ true) ↔ Wanted status s
status_passes-Wanted none s = (λ h. tt, λ h. rw (str_eq_refl "") refl)
status_passes-Wanted (some t) s = (
  λ h.
      let same : str_eq (status_text s) (status_text t) ≡ true = rw (status_text-nonempty t) at h in
      sym (read_status-status_text s)
      ∙ ap read_status (str_eq→eq (status_text s) (status_text t) same)
      ∙ read_status-status_text t,
  λ same. rw (status_text-nonempty t, same, str_eq_refl (status_text t)) refl,
)

service_passes-Wanted :
    (service : Option ℕ) (n : ℕ)
    → service ≢ some 0
    → (service_passes (service_filter service) n ≡ true) ↔ Wanted service n
service_passes-Wanted none n real = (λ h. tt, λ h. refl)
service_passes-Wanted (some m) n real =
    let proper : m ≢ 0 = λ e. real (ap some e) in (λ h. ground arith, λ h. ground arith)

both_true : (a b : Bool) → (a && b) ≡ true → (a ≡ true) × (b ≡ true)
both_true a b h = ground arith

module _ ⦃bolt : Bolt⦄ where
  open bolt use {get, cursor, get_lem}

  -- On a state that satisfies the invariant, let ListRequests be asked for one status or any, by
  -- its text, and for one service or any, by an id that is not 0. It lists a request exactly if
  -- the request is stored, has the status if one is given, and is for the service if one is given,
  -- and it lists no request twice.
  pub list_requests-Listed :
      {total : ℕ} (w : World) (status : Option RequestStatus) (service : Option ℕ)
      (r : InferenceRequest)
      → Inv total w
      → service ≢ some 0
      → (Memᴰ r (list_requests w (status_filter status) (service_filter service))
          ↔ ((get w.requests r.id ≡ some r) × Wanted status r.status × Wanted service r.service_id))
        × Distinct (list_requests w (status_filter status) (service_filter service))
  unfolding list_requests
  list_requests-Listed w status service r v real =
      let test = is_listed (status_filter status) (service_filter service) in
      let by_status = status_passes-Wanted status r.status in
      let by_service = service_passes-Wanted service r.service_id real in
      (
        (
          λ m.
              let here =
                All-Memᴰ _ r _ (All-select _ test (rows w.requests) (rows_in_store w v)) m in
              let passed : test r ≡ true = All-Memᴰ _ r _ (select_test test (rows w.requests)) m in
              let (one, other) = both_true _ _ passed in
              (here, by_status.0 one, by_service.0 other),
          λ h.
              listed test r.id r (cursor w.requests) (sym (get_lem w.requests r.id) ∙ h.0)
                (rw (by_status.1 h.1, by_service.1 h.2) refl),
        ),
        select-Distinct test 0 (rows w.requests) (rows_in_order w v),
      )
