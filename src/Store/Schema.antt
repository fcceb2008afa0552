-- ===== src/Store/Schema.antt =====
-- The tables of store.go. A row has its columns in order; 0/1 columns are Booleans, times are
-- Unix seconds. A table lists its rows by rowid.
use dshker_server.Prelude.{Bool, List, Result, String, any, not, ℕ, ◌&&◌, ◌=s=◌}
use dshker_server.Protocol.Ids.{Bytes}

-- The state of a pair; the source spells it as text in the `state` column.
pub data PairState : Type 0 where
  invited approved active rejected revoked : PairState

pub PairState-discrete : Discrete PairState
PairState-discrete = hlevel

pub record UserRow : Type 0 where
  pub id : String
  pub email : String
  pub password_hash : Bytes
  pub disabled : Bool

pub record UserSessionRow : Type 0 where
  pub hash : String
  pub user_id : String
  pub expires : ℕ

pub record NetworkRow : Type 0 where
  pub id : String
  pub user_id : String
  pub name : String
  pub deleted : Bool
  pub max_devices : ℕ

pub record TokenRow : Type 0 where
  pub hash : String
  pub user_id : String
  pub network_id : String
  pub expires : ℕ
  pub used : Bool

pub record DeviceRow : Type 0 where
  pub id : String
  pub user_id : String
  pub public_key : Bytes
  pub name : String
  pub certificate : Bytes
  pub revoked : Bool
  pub request_id : String
  pub last_seen : ℕ
  pub version : String
  pub platform : String
  pub architecture : String

pub record DeviceUserRow : Type 0 where
  pub device_id : String
  pub user_id : String

pub record BindingRow : Type 0 where
  pub network_id : String
  pub device_id : String
  pub active : Bool

pub record ShareRow : Type 0 where
  pub nonce : String
  pub device_id : String
  pub network_id : String
  pub expires : ℕ
  pub used : Bool

-- `revision` is an int64 that grows by one with each change, far below its bound.
pub record PairRow : Type 0 where
  pub id : String
  pub network_id : String
  pub initiator : String
  pub target : String
  pub state : PairState
  pub expires : ℕ
  pub revision : ℕ

pub record RenewalRow : Type 0 where
  pub device_id : String
  pub request_id : String
  pub certificate : Bytes

-- What an operator reads later; `at` is a Unix time.
pub record AuditRow : Type 0 where
  pub event : String
  pub subject : String
  pub at : ℕ

pub record Db : Type 0 where
  pub users : List UserRow
  pub user_sessions : List UserSessionRow
  pub networks : List NetworkRow
  pub tokens : List TokenRow
  pub devices : List DeviceRow
  pub device_users : List DeviceUserRow
  pub bindings : List BindingRow
  pub shares : List ShareRow
  pub pairs : List PairRow
  pub renewals : List RenewalRow
  pub audit : List AuditRow

-- An operation on the store: an error or a value with the new tables. Each runs in a transaction
-- or makes one write, so an error leaves the tables as they were.
abbrev pub Tx : Type 0 → Type 0
Tx A = Result (A × Db)

-- `JOIN users u ON u.id=... WHERE u.disabled=0`
unfoldable pub user_enabled : Db → String → Bool
user_enabled db id = any (λ u. u.id =s= id && not u.disabled) db.users
