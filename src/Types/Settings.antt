-- ===== src/Types/Settings.antt =====
-- `Params` and `DefaultParams`.
use l1_modular_blockchain.Common.{ℕ}
use l1_modular_blockchain.Int64.{ℤ, pos}
use l1_modular_blockchain.Types.Coins.{Coin}

pub record Params : Type 0 where
  pub challenge_window_blocks : ℤ
  pub min_service_price : Coin
  pub max_request_deadline_blocks : ℤ
  pub provider_bond_amount : Coin
  pub challenger_bond_amount : Coin
  pub voucher_bond_amount : Coin
  pub voucher_reward_amount : Coin
  pub voucher_margin : ℤ
  pub service_registration_bond : Coin
  pub min_service_lifetime_blocks : ℤ
  pub voucher_bond_scale_bp : ℤ

abbrev aios : ℕ → Coin
aios n = record { denom = "aios"; amount = n }

unfoldable pub default_params : Params
default_params = record {
  challenge_window_blocks = pos 45;
  min_service_price = aios 1;
  max_request_deadline_blocks = pos 10000;
  provider_bond_amount = aios 50;
  challenger_bond_amount = aios 50;
  voucher_bond_amount = aios 25;
  voucher_reward_amount = aios 25;
  voucher_margin = pos 0;
  service_registration_bond = aios 100;
  min_service_lifetime_blocks = pos 1000;
  voucher_bond_scale_bp = pos 5000;
}
