-- ===== src/Store/Enrollment.antt =====
-- internal/coordinator/enrollment.go: enrollment tokens and the admission of devices.
pub mod Tokens
use Prim.Native.String.{len}
use dshker_server.Prelude.{
  Bool, List, Option, Result, String, [], any, count, device_already_enrolled, err, false, find,
  if◌then◌else◌, invalid_enrollment, invalid_enrollment_token, invalid_request, ltb,
  network_unauthorized, none, not, ok, reject, some, sql_error, update, ℕ, ◌&&◌, ◌++◌, ◌+◌, ◌==◌,
  ◌=s=◌, ◌>>=◌, ◌>>◌, ◌||◌, ◌∷◌,
}
use dshker_server.Protocol.Ids.{Bytes, bytes_eq, unix, valid_id, valid_name, valid_telemetry_field}
use dshker_server.Protocol.Service.{Service}
use dshker_server.Store.Bindings.{bind, spend_token}
use dshker_server.Store.Networks.{binding_fits_capacity, log, network_owned, require_capacity}
use dshker_server.Store.Pairing.{Device, five_minutes}
use dshker_server.Store.Schema.{Db, DeviceRow, DeviceUserRow, TokenRow, Tx, revoked, user_enabled}

-- What a device reports about its build.
pub record DeviceTelemetry : Type 0 where
  pub version : String
  pub platform : String
  pub architecture : String

abbrev pub no_telemetry : DeviceTelemetry
no_telemetry = record { version = ""; platform = ""; architecture = "" }

unfoldable pub telemetry_valid : DeviceTelemetry → Bool
telemetry_valid t =
    valid_telemetry_field t.version
    && valid_telemetry_field t.platform
    && valid_telemetry_field t.architecture

-- `CASE WHEN ?='' THEN old ELSE ? END`
abbrev pub keep_or : String → String → String
keep_or old new = if new =s= "" then old else new

abbrev pub seen_row : DeviceTelemetry → ℕ → DeviceRow → DeviceRow
seen_row t at d = record d {
  last_seen = at;
  version = keep_or d.version t.version;
  platform = keep_or d.platform t.platform;
  architecture = keep_or d.architecture t.architecture;
}

unfoldable pub record_device_seen : String → DeviceTelemetry → ℕ → Db → Tx (Unit {0})
record_device_seen id telemetry now db = do
  reject (not (valid_id id)) invalid_request
  let t = if telemetry_valid telemetry then telemetry else no_telemetry
  ok (
    tt,
    record db {
      devices = update (λ d. d.id =s= id && not d.revoked) (seen_row t (unix now)) db.devices;
    },
  )

pub record Enrollment : Type 0 where
  pub request_id : String
  pub token : String
  pub csr : String
  pub name : String

pub record NetworkJoin : Type 0 where
  pub request_id : String
  pub network_id : String
  pub csr : String
  pub name : String

abbrev pub set_identity : String → String → DeviceRow → DeviceRow
set_identity name request_id d = record d { name = name; request_id = request_id }

-- `SELECT id FROM devices WHERE public_key=?`
abbrev pub known_device : Bytes → Db → Option DeviceRow
known_device key db = find (λ d. bytes_eq d.public_key key) db.devices

-- The columns of `devices` that are unique: id, public_key and request_id.
abbrev pub device_clash : String → Bytes → String → DeviceRow → Bool
device_clash id key request_id d =
    d.id =s= id || bytes_eq d.public_key key || d.request_id =s= request_id

-- Another device than `id` has the request's id already.
abbrev pub request_clash : String → String → DeviceRow → Bool
request_clash id request_id d = d.request_id =s= request_id && not (d.id =s= id)

abbrev pub link_row : String → String → List DeviceUserRow → List DeviceUserRow
link_row device_id user_id rows =
    if any (λ du. du.device_id =s= device_id && du.user_id =s= user_id) rows
    then rows
    else rows ++ record { device_id = device_id; user_id = user_id } ∷ []

-- A new row, or the machine's own row with the name and the request of this call.
unfoldable pub upsert_device : Device → String → Db → Result (Device × Db)
upsert_device dev request_id db = elim (known_device dev.public_key db) [
  | none ↦ do
    reject (any (device_clash dev.id dev.public_key request_id) db.devices) device_already_enrolled
    ok (
      dev,
      record db {
        devices =
            db.devices
            ++ record {
              id = dev.id;
              user_id = dev.user_id;
              public_key = dev.public_key;
              name = dev.name;
              certificate = dev.certificate;
              revoked = false;
              request_id = request_id;
              last_seen = 0;
              version = "";
              platform = "";
              architecture = "";
            }
              ∷ [];
      },
    )
  | some d ↦ do
    reject (any (request_clash d.id request_id) db.devices) sql_error
    ok (
      record dev { id = d.id; certificate = d.certificate },
      record db {
        devices = update (λ x. x.id =s= d.id) (set_identity dev.name request_id) db.devices;
      },
    )
]

-- The device's account, its binding and the audit row.
abbrev pub admit_to : String → String → String → ℕ → Device × Db → Tx Device
admit_to event user_id network_id now (dev, db) = ok (
  dev,
  log event dev.id (unix now) (
      bind network_id dev.id
        (record db { device_users = link_row dev.id user_id db.device_users })),
)

module _ (service : Service) where
  abbrev pub usable_token : Db → String → ℕ → TokenRow → Bool
  usable_token db token now t =
      t.hash =s= service.digest token
      && not t.used
      && ltb (unix now) t.expires
      && user_enabled db t.user_id
      && any (λ n. n.id =s= t.network_id && not n.deleted && n.user_id =s= t.user_id) db.networks

  -- The user and the network that a token stands for.
  unfoldable pub token_scope : Db → String → ℕ → Result (String × String)
  token_scope db token now = elim (find (usable_token db token now) db.tokens) [
    | none ↦ err invalid_enrollment_token
    | some t ↦ ok (t.user_id, t.network_id)
  ]

  abbrev pub unspent : String → ℕ → TokenRow → Bool
  unspent token now t = t.hash =s= service.digest token && not t.used && ltb (unix now) t.expires

  unfoldable pub consume_token : String → ℕ → Db → Tx (Unit {0})
  consume_token token now db = do
    token_scope db token now
    reject (not (count (unspent token now) db.tokens == 1)) invalid_enrollment_token
    ok (tt, record db { tokens = update (unspent token now) spend_token db.tokens })

  -- `secret` is what `protocol.NewSecret` mints.
  unfoldable pub issue_enrollment_token : String → String → String → ℕ → Db → Tx String
  issue_enrollment_token secret user_id network_id now db = do
    network_owned db user_id network_id
    reject (any (λ t. t.hash =s= service.digest secret) db.tokens) sql_error
    let row : TokenRow = record {
      hash = service.digest secret;
      user_id = user_id;
      network_id = network_id;
      expires = unix (now + five_minutes);
      used = false;
    }
    ok (secret, record db { tokens = db.tokens ++ row ∷ [] })

  abbrev pub new_device : Bytes → String → String → ℕ → Device
  new_device key user_id name now = record {
    id = service.key_id key;
    user_id = user_id;
    public_key = key;
    name = name;
    certificate = service.issue_certificate (service.key_id key) key now;
  }

  unfoldable pub enroll : Enrollment → ℕ → Db → Tx Device
  enroll request now db = do
    reject (not (valid_id request.request_id && len request.token == 64 && valid_name request.name))
        invalid_enrollment
    key ← service.csr_key request.csr
    scope ← token_scope db request.token now
    require_capacity (binding_fits_capacity db scope.1)
    spent ← consume_token request.token now db
    entered ← upsert_device (new_device key scope.0 request.name now) request.request_id spent.1
    admit_to "enrolled" scope.0 scope.1 now entered

  -- The owner of a live network, whose account is enabled.
  unfoldable pub join_owner : Db → String → Result String
  join_owner db network_id = elim (find (λ n. n.id =s= network_id && not n.deleted) db.networks) [
    | none ↦ err network_unauthorized
    | some n ↦ if user_enabled db n.user_id then ok n.user_id else err network_unauthorized
  ]

  unfoldable pub join_network : NetworkJoin → ℕ → Db → Tx Device
  join_network request now db = do
    reject
        (not
          (valid_id request.request_id && valid_id request.network_id && valid_name request.name))
        invalid_enrollment
    key ← service.csr_key request.csr
    owner ← join_owner db request.network_id
    require_capacity (binding_fits_capacity db request.network_id)
    entered ← upsert_device (new_device key owner request.name now) request.request_id db
    admit_to "network-join" owner request.network_id now entered
