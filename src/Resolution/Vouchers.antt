-- ===== src/Resolution/Vouchers.antt =====
-- What the three outcomes share: the first challenge, and the sides that the vouchers took.
use l1_modular_blockchain.Common.{ℕ, ◌+◌, Bool, ◌&&◌, not, List, [], ◌∷◌, if◌then◌else◌}
use l1_modular_blockchain.Types.{Challenge, Voucher, is_positive, panicked}
use l1_modular_blockchain.Outcome.{Outcome, ok, err}

-- `r.Challenges[0]`, which panics where there is none.
abbrev pub first_challenge : List Challenge → Outcome Challenge
first_challenge [] = err panicked
first_challenge (c ∷ cs) = ok c

-- The vouchers that back the provider.
abbrev pub provider_side : List Voucher → List Voucher
provider_side [] = []
provider_side (v ∷ vs) = if v.supports_provider then v ∷ provider_side vs else provider_side vs

-- How many vouchers of a side have a positive bond.
abbrev pub count_bonds : Bool → List Voucher → ℕ
count_bonds side [] = 0
count_bonds side (v ∷ vs) =
    (if is_positive v.bond && (if v.supports_provider then side else not side) then 1 else 0)
    + count_bonds side vs

abbrev pub count_positive : List Voucher → ℕ
count_positive [] = 0
count_positive (v ∷ vs) = (if is_positive v.bond then 1 else 0) + count_positive vs
