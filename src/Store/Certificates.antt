-- ===== src/Store/Certificates.antt =====
-- internal/coordinator/certificates.go and the certificate check of enrollment.go.
pub mod Renewals
use Prim.Native.String.{len}
use dshker_server.Prelude.{
  Bool, List, Option, Result, String, [], any, certificate_not_expired, count, device_unauthorized,
  enrollment_not_found, err, false, find, identity_mismatch, if◌then◌else◌, leb, length, ltb, none,
  not, ok, or_fail, reject, renewal_not_due, request_conflict, some, true, update, ℕ, ◌&&◌, ◌++◌,
  ◌+◌, ◌==◌, ◌=s=◌, ◌>>=◌, ◌>>◌, ◌∷◌,
}
use dshker_server.Protocol.Ids.{Bytes, bytes_eq, unix, valid_id}
use dshker_server.Protocol.Service.{Scalar, Service, blob, num, text}
use dshker_server.Store.Bindings.{binding_owner, device_linked_to, device_live, revoke_row}
use dshker_server.Store.Enrollment.{consume_token, token_scope}
use dshker_server.Store.Networks.{log}
use dshker_server.Store.PairActions.{takes_part}
use dshker_server.Store.Pairing.{Device, device}
use dshker_server.Store.Schema.{Db, DeviceRow, RenewalRow, Tx, revoked}

pub record EnrollmentQuery : Type 0 where
  pub request_id : String
  pub public_key : Bytes
  pub issued_at : ℕ
  pub signature : String

-- The newline-separated text that is signed, field by field.
unfoldable pub query_fields : EnrollmentQuery → List Scalar
query_fields q =
    text "dshker.enrollment-query.v1" ∷ text q.request_id ∷ blob q.public_key ∷ num q.issued_at ∷ []

-- A certificate that a device presents, as far as the coordinator reads it: the name it carries,
-- its Ed25519 key, and whether it verifies against the service's CA at this time.
pub record Certificate : Type 0 where
  pub common_name : String
  pub key : Option Bytes
  pub trusted : Bool
  pub expires : ℕ

pub record Renewal : Type 0 where
  pub request_id : String
  pub csr : String

pub record CertificateRecovery : Type 0 where
  pub device_id : String
  pub request_id : String
  pub csr : String
  pub token : String

abbrev pub week : ℕ
week = 604_800_000_000_000

abbrev pub key_is : Option Bytes → Bytes → Bool
key_is none key = false
key_is (some k) key = bytes_eq k key

-- `Store.Authenticate`
unfoldable pub authenticate : Db → Option Certificate → Result Device
authenticate db none = err device_unauthorized
authenticate db (some certificate) = do
  reject (not certificate.trusted) device_unauthorized
  elim (device db certificate.common_name) [
    | err _ ↦ err identity_mismatch
    | ok d ↦ if key_is certificate.key d.public_key then ok d else err identity_mismatch
  ]

abbrev pub is_renewal : String → String → RenewalRow → Bool
is_renewal device_id request_id r = r.device_id =s= device_id && r.request_id =s= request_id

abbrev pub set_certificate : Bytes → DeviceRow → DeviceRow
set_certificate certificate d = record d { certificate = certificate }

abbrev pub csr_matches : Result Bytes → Bytes → Bool
csr_matches (ok key) public = bytes_eq key public
csr_matches (err _) public = false

module _ (service : Service) where
  unfoldable pub read_enrollment : EnrollmentQuery → ℕ → Db → Result Device
  read_enrollment query now db = do
    reject
        (not (
          valid_id query.request_id
          && length query.public_key == 32
          && leb query.issued_at (unix now)
          && ltb (unix now) (query.issued_at + 60)
          && service.verify query.public_key (query_fields query) query.signature))
        device_unauthorized
    d ←
        or_fail
          (find
            (λ (d : DeviceRow).
              bytes_eq d.public_key query.public_key
              && d.request_id =s= query.request_id
              && not d.revoked)
            db.devices)
          enrollment_not_found
    device db d.id

  -- The insertion into `renewals` and the device's new certificate.
  abbrev pub store_certificate : Device → String → Bytes → Db → Tx Bytes
  store_certificate dev request_id certificate db = do
    reject (any (is_renewal dev.id request_id) db.renewals) request_conflict
    ok (
      certificate,
      record db {
        renewals =
            db.renewals
            ++ record { device_id = dev.id; request_id = request_id; certificate = certificate }
              ∷ [];
        devices = update (λ d. d.id =s= dev.id) (set_certificate certificate) db.devices;
      },
    )

  -- The token's account is linked to the device, and its network has the device bound.
  unfoldable pub check_recovery_token : Device → String → ℕ → Db → Tx (Unit {0})
  check_recovery_token dev token now db = do
    scope ← token_scope service db token now
    reject (not (device_linked_to db dev.id scope.0)) identity_mismatch
    binding_owner db scope.1 dev.id
    consume_token service token now db

  -- `replaceCertificate`; an empty token is a renewal, any other a recovery.
  unfoldable pub replace_certificate : Device → String → String → ℕ → Db → Tx Bytes
  replace_certificate dev request_id token now db = do
    reject (not (device_live db dev.id)) device_unauthorized
    let certificate = service.issue_certificate dev.id dev.public_key now
    let fresh = store_certificate dev request_id certificate db
    if token =s= ""
        then elim (find (is_renewal dev.id request_id) db.renewals) [
          | some saved ↦ ok (saved.certificate, db)
          | none ↦ fresh
        ]
        else (check_recovery_token dev token now db >>= λ spent.
            store_certificate dev request_id certificate spent.1)

  unfoldable pub renew_certificate : Certificate → Renewal → ℕ → Db → Tx Bytes
  renew_certificate certificate request now db = do
    dev ← authenticate db (some certificate)
    reject
        (not
          (csr_matches (service.csr_key request.csr) dev.public_key && valid_id request.request_id))
        identity_mismatch
    elim (find (is_renewal dev.id request.request_id) db.renewals) [
      | some saved ↦ ok (saved.certificate, db)
      | none ↦
          reject (ltb (now + week) certificate.expires) renewal_not_due
          >> replace_certificate dev request.request_id "" now db
    ]

  -- `now.Before(certificate.NotAfter)`, or a certificate that does not parse.
  abbrev pub still_valid : Option ℕ → ℕ → Bool
  still_valid none now = true
  still_valid (some t) now = ltb now t

  unfoldable pub recover_certificate : CertificateRecovery → ℕ → Db → Tx Bytes
  recover_certificate request now db = do
    dev ← device db request.device_id
    reject
        (not (
          csr_matches (service.csr_key request.csr) dev.public_key
          && valid_id request.request_id
          && len request.token == 64))
        identity_mismatch
    reject (still_valid (service.not_after dev.certificate) now) certificate_not_expired
    replace_certificate dev request.request_id request.token now db

-- `UPDATE pairs SET state='revoked' … WHERE initiator=? OR target=?`: pairs in any state.
unfoldable pub revoke_device : String → ℕ → Db → Tx (Unit {0})
revoke_device id now db = do
  reject (not (count (λ (d : DeviceRow). d.id =s= id && not d.revoked) db.devices == 1))
      device_unauthorized
  ok (
    tt,
    log "device-revoked" id (unix now) (record db {
      devices =
          update (λ d. d.id =s= id && not d.revoked) (λ d. record d { revoked = true }) db.devices;
      pairs = update (takes_part id) revoke_row db.pairs;
    }),
  )
