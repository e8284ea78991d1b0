-- ===== src/Indexer/Store.antt =====
-- indexer/internal/store/store.go: the two tables and the statements on them. `updated_at`, which is
-- never read, is left out, and so is what only a broken database answers.
use mathlib.Core.List.{reverse}
use l1_modular_blockchain.Common.{
  ℕ, String, Bool, ◌&&◌, ◌||◌, true, false, Option, none, some, List, [], ◌∷◌, length, map, take,
  select, if◌then◌else◌, str_eq, ◌==◌, is_some,
}
use l1_modular_blockchain.Int64.{ℤ}
use l1_modular_blockchain.Bolt.{Entries}
use l1_modular_blockchain.Indexer.Sqlite.{Sqlite}

pub record ServiceRow : Type 0 where
  pub id : ℕ
  pub owner : String
  pub name : String
  pub description : String
  pub price_denom : String
  pub price_amount : ℕ
  pub verification_domain_id : ℕ
  pub active : Bool
  pub created_at_height : ℤ

-- The columns that may be NULL are options.
pub record RequestRow : Type 0 where
  pub id : ℕ
  pub service_id : ℕ
  pub requester : String
  pub input_hash : String
  pub input_uri : String
  pub input_text : String
  pub escrow_denom : String
  pub escrow_amount : ℕ
  pub deadline_height : ℤ
  pub status : String
  pub created_at_height : ℤ
  pub finalized_at_height : Option ℤ
  pub output_hash : Option String
  pub output_uri : Option String
  pub output_text : Option String
  pub provider : Option String
  pub paid_denom : Option String
  pub paid_amount : Option ℕ

abbrev pub named : String → Entries ServiceRow → Bool
named name [] = false
named name (e ∷ es) = str_eq e.1.name name || named name es

pub record Stats : Type 0 where
  pub services_total : ℕ
  pub requests_total : ℕ
  pub requests_finalized : ℕ
  pub requests_pending : ℕ
  pub requests_refunded : ℕ

-- A row by its id: there is one, there is none (`ErrNotFound`), or the driver takes no such id.
pub data Lookup (A : Type 0) : Type 0 where
  found : A → Lookup A
  no_such_row rejected : Lookup A

abbrev pub looked_up : {A : Type 0} → Bool → Option A → Lookup A
looked_up false o = rejected
looked_up true none = no_such_row
looked_up true (some a) = found a

module _ ⦃sqlite : Sqlite⦄ where
  open sqlite use {Rows, no_rows, row, save, scan, binds}

  pub record Db : Type 0 where
    pub services : Rows ServiceRow
    pub requests : Rows RequestRow

  -- `schemaSQL`, on a new file.
  abbrev pub migrate : Db
  migrate = record { services = no_rows; requests = no_rows }

  -- `INSERT ... ON CONFLICT(id) DO UPDATE`: the name, the domain and the height of an old row stay. A
  -- new row needs a name of its own (`UNIQUE`). `none` is an error, and nothing is written.
  abbrev upsert_service_row : Db → ServiceRow → Option ServiceRow → Option Db
  upsert_service_row db svc (some old) = some (record db {
    services = save db.services svc.id (record old {
      owner = svc.owner;
      description = svc.description;
      price_denom = svc.price_denom;
      price_amount = svc.price_amount;
      active = svc.active;
    });
  })
  upsert_service_row db svc none =
      if named svc.name (scan db.services)
      then none
      else some (record db { services = save db.services svc.id svc })

  unfoldable pub upsert_service : Db → ServiceRow → Option Db
  upsert_service db svc =
      if binds svc.id && binds svc.price_amount && binds svc.verification_domain_id
      then upsert_service_row db svc (row db.services svc.id)
      else none

  unfoldable pub get_service_row : Db → ℕ → Lookup ServiceRow
  get_service_row db id = looked_up (binds id) (row db.services id)

  unfoldable pub list_service_rows : Db → List ServiceRow
  list_service_rows db = map (λ e. e.1) (scan db.services)

  -- Of an old row only the status changes. A new row needs its service (`REFERENCES`).
  abbrev pub upsert_request_row : Db → RequestRow → Option RequestRow → Option Db
  upsert_request_row db r (some old) =
      some (record db { requests = save db.requests r.id (record old { status = r.status }) })
  upsert_request_row db r none =
      if is_some (row db.services r.service_id)
      then some (record db {
        requests = save db.requests r.id (record r {
          finalized_at_height = none;
          output_hash = none;
          output_uri = none;
          output_text = none;
          provider = none;
          paid_denom = none;
          paid_amount = none;
        });
      })
      else none

  unfoldable pub upsert_request : Db → RequestRow → Option Db
  upsert_request db r =
      if binds r.id && binds r.service_id && binds r.escrow_amount
      then upsert_request_row db r (row db.requests r.id)
      else none

  -- An `UPDATE` of no row is no error.
  abbrev pub update_request : Db → ℕ → (RequestRow → RequestRow) → Option RequestRow → Option Db
  update_request db id change none = some db
  update_request db id change (some old) =
      some (record db { requests = save db.requests id (change old) })

  unfoldable pub finalize_row :
      Db → ℕ → String → String → String → String → String → ℕ → ℤ → Option Db
  finalize_row db id provider hash uri text denom amount height =
      if binds amount && binds id
      then update_request db id
          (λ old. record old {
            status = "FINALIZED";
            finalized_at_height = some height;
            output_hash = some hash;
            output_uri = some uri;
            output_text = some text;
            provider = some provider;
            paid_denom = some denom;
            paid_amount = some amount;
          })
          (row db.requests id)
      else none

  unfoldable pub refund_row : Db → ℕ → ℤ → Option Db
  refund_row db id height =
      if binds id
      then update_request db id
          (λ old. record old { status = "REFUNDED"; finalized_at_height = some height })
          (row db.requests id)
      else none

  unfoldable pub get_request_row : Db → ℕ → Lookup RequestRow
  get_request_row db id = looked_up (binds id) (row db.requests id)

  -- `AND status = ?` and `AND service_id = ?`, where they are given.
  abbrev pub is_wanted : String → ℕ → RequestRow → Bool
  is_wanted status service_id r =
      (str_eq status "" || str_eq r.status status)
      && (service_id == 0 || r.service_id == service_id)

  -- `ORDER BY id DESC LIMIT 200`
  unfoldable pub list_request_rows : Db → String → ℕ → Option (List RequestRow)
  list_request_rows db status service_id =
      if service_id == 0 || binds service_id
      then some (
          take 200
            (reverse (select (is_wanted status service_id) (map (λ e. e.1) (scan db.requests)))))
      else none

  abbrev pub count_status : Db → String → ℕ
  count_status db status =
      length (select (λ r. str_eq r.status status) (map (λ e. e.1) (scan db.requests)))

  unfoldable pub stats_summary : Db → Stats
  stats_summary db = record {
    services_total = length (scan db.services);
    requests_total = length (scan db.requests);
    requests_finalized = count_status db "FINALIZED";
    requests_pending = count_status db "PENDING";
    requests_refunded = count_status db "REFUNDED";
  }
