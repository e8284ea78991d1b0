-- ===== src/State/Chain.antt =====
-- `State`: the buckets of the database. The `meta` bucket has a fixed set of keys, which are fields
-- here; its numbers are uint64, and an authority that was never set is the empty text.
use l1_modular_blockchain.Common.{ℕ, String}
use l1_modular_blockchain.Types.{
  Service, VerificationDomain, InferenceRequest, Params, default_params,
}
use l1_modular_blockchain.Bolt.{Bolt}

pub record Account : Type 0 where
  pub address : String
  pub balance : ℕ
  pub nonce : ℕ

-- `moduleEscrowAddr` and `ModuleTreasuryAddr`
abbrev pub module_escrow_addr : String
module_escrow_addr = "aios1escrow000000000000000000000000000000"

abbrev pub module_treasury_addr : String
module_treasury_addr = "aios1treasury00000000000000000000000000000"

module _ ⦃bolt : Bolt⦄ where
  open bolt use {Table, Dict, no_rows, no_pairs}

  pub record World : Type 0 where
    pub height : ℕ
    pub next_svc_id : ℕ
    pub next_req_id : ℕ
    pub next_domain_id : ℕ
    pub params : Params
    pub authority : String
    pub accounts : Dict Account
    pub services : Table Service
    pub svc_by_name : Dict ℕ
    pub requests : Table InferenceRequest
    pub nonces : Dict ℕ
    pub domains : Table VerificationDomain

  -- `init` on a new database.
  unfoldable pub init : World
  init = record {
    height = 0;
    next_svc_id = 1;
    next_req_id = 1;
    next_domain_id = 1;
    params = default_params;
    authority = "";
    accounts = no_pairs;
    services = no_rows;
    svc_by_name = no_pairs;
    requests = no_rows;
    nonces = no_pairs;
    domains = no_rows;
  }
