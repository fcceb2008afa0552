-- ===== src/Store/History.antt =====
-- Every call that writes to the store, as one step function: a failed call leaves the tables.
mod Frames
mod DeviceFrames
pub mod Bindings
pub mod Networks
pub mod Bounds
pub mod Occupancy
pub mod Capacity
pub mod Machine
pub mod PairSteps
pub mod Pairs
pub mod Exclusive
pub mod Lifecycle
pub mod Confined
pub mod Tenants
use Prim.Native.Char.{code}
use dshker_server.Prelude.{Bool, List, String, [], commit, ℕ, ◌∷◌}
use dshker_server.Protocol.Service.{Service}
use dshker_server.Store.Bindings.{bind_device, delete_network, delete_pair, unbind_device}
use dshker_server.Store.Certificates.{
  Certificate, CertificateRecovery, Renewal, recover_certificate, renew_certificate, revoke_device,
}
use dshker_server.Store.Enrollment.{
  DeviceTelemetry, Enrollment, NetworkJoin, enroll, issue_enrollment_token, join_network,
  record_device_seen,
}
use dshker_server.Store.Networks.{create_network, rename_network, update_network_limit}
use dshker_server.Store.PairActions.{act_on_pair, adopt_network}
use dshker_server.Store.Pairing.{Share, invite, share}
use dshker_server.Store.Schema.{Db}
use dshker_server.Store.Users.{create_user, disable_user, login, logout}

-- The values that the code mints (identifiers, secrets) are arguments.
pub data Call : Type 0 where
  creates_user : String → String → String → Call
  logs_in : Bool → String → String → String → Call
  logs_out : String → Call
  disables_user : String → Call
  creates_network : String → String → String → Call
  renames_network : String → String → String → Call
  limits_network : String → String → ℕ → Call
  deletes_network : String → String → Call
  binds_device : String → String → String → Call
  unbinds_device : String → String → String → Call
  deletes_pair : String → String → String → Call
  issues_token : String → String → String → Call
  enrolls : Enrollment → Call
  joins_network : NetworkJoin → Call
  reports_seen : String → DeviceTelemetry → Call
  shares : String → String → String → Call
  invites : String → String → Share → Call
  adopts_network : (ℕ → String) → String → Call
  acts_on_pair : String → String → String → String → Call
  renews_certificate : Certificate → Renewal → Call
  recovers_certificate : CertificateRecovery → Call
  revokes_device : String → Call

-- The tables after a call at a time.
unfoldable pub step : Service → Db → ℕ × Call → Db
step service db (now, creates_user id email password) =
    commit db (create_user service id email password db)
step service db (now, logs_in busy secret username password) =
    commit db (login service busy secret username password now db)
step service db (now, logs_out token) = commit db (logout service token db)
step service db (now, disables_user id) = commit db (disable_user id now db)
step service db (now, creates_network id user_id name) =
    commit db (create_network id user_id name db)
step service db (now, renames_network user_id id name) =
    commit db (rename_network user_id id name db)
step service db (now, limits_network user_id id limit) =
    commit db (update_network_limit user_id id limit now db)
step service db (now, deletes_network user_id id) = commit db (delete_network user_id id now db)
step service db (now, binds_device user_id network_id device_id) =
    commit db (bind_device user_id network_id device_id db)
step service db (now, unbinds_device user_id network_id device_id) =
    commit db (unbind_device user_id network_id device_id now db)
step service db (now, deletes_pair user_id network_id pair_id) =
    commit db (delete_pair user_id network_id pair_id now db)
step service db (now, issues_token secret user_id network_id) =
    commit db (issue_enrollment_token service secret user_id network_id now db)
step service db (now, enrolls request) = commit db (enroll service request now db)
step service db (now, joins_network request) = commit db (join_network service request now db)
step service db (now, reports_seen id telemetry) =
    commit db (record_device_seen id telemetry now db)
step service db (now, shares nonce id network_id) =
    commit db (share service nonce id network_id now db)
step service db (now, invites id sender code) = commit db (invite service id sender code now db)
step service db (now, adopts_network ids device_id) = commit db (adopt_network ids device_id now db)
step service db (now, acts_on_pair device_id pair_id action fingerprint) =
    commit db (act_on_pair service device_id pair_id action fingerprint now db)
step service db (now, renews_certificate certificate request) =
    commit db (renew_certificate service certificate request now db)
step service db (now, recovers_certificate request) =
    commit db (recover_certificate service request now db)
step service db (now, revokes_device id) = commit db (revoke_device id now db)

unfoldable pub run : Service → Db → List (ℕ × Call) → Db
run service db [] = db
run service db (c ∷ cs) = run service (step service db c) cs

-- `Initialize`: the schema with no rows but the metadata.
abbrev pub empty_db : Db
empty_db = record {
  users = [];
  user_sessions = [];
  networks = [];
  tokens = [];
  devices = [];
  device_users = [];
  bindings = [];
  shares = [];
  pairs = [];
  renewals = [];
  audit = [];
}
