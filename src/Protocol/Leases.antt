-- ===== src/Protocol/Leases.antt =====
-- internal/protocol/lease.go: the lease that both ends of a connection hold.
use dshker_server.Prelude.{
  Bool, List, Result, String, [], identity_mismatch, lease_expired, lease_scope_mismatch, leb,
  length, ltb, not, reject, ℕ, ◌&&◌, ◌+◌, ◌==◌, ◌=s=◌, ◌>>◌, ◌||◌, ◌∷◌,
}
use dshker_server.Protocol.Ids.{Bytes, minute, unix, valid_id}
use dshker_server.Protocol.Service.{Scalar, Service, num, text}

pub record Lease : Type 0 where
  pub version : ℕ
  pub service_id : String
  pub user_id : String
  pub network_id : String
  pub pair_id : String
  pub attempt_id : String
  pub from_device_id : String
  pub to_device_id : String
  pub generation : ℕ
  pub revision : ℕ
  pub expires_at : ℕ
  pub permission : String
  pub signature : String

-- `Lease.SigningBytes`: every field but the signature.
unfoldable pub lease_fields : Lease → List Scalar
lease_fields l =
    text "dshker.lease.v1"
    ∷ num l.version
    ∷ text l.service_id
    ∷ text l.user_id
    ∷ text l.network_id
    ∷ text l.pair_id
    ∷ text l.attempt_id
    ∷ text l.from_device_id
    ∷ text l.to_device_id
    ∷ num l.generation
    ∷ num l.revision
    ∷ num l.expires_at
    ∷ text l.permission
    ∷ []

-- What a client expects of a lease or of a signal.
pub record SignalScope : Type 0 where
  pub attempt_id : String
  pub from_device_id : String
  pub to_device_id : String
  pub pair_id : String
  pub generation : ℕ
  pub next_sequence : ℕ

abbrev pub lease_matches : Service → Lease → Bytes → SignalScope → ℕ → Bool
lease_matches service l public scope revision =
    l.version == 1
    && length public == 32
    && l.service_id =s= service.key_id public
    && l.permission =s= "dsh-session"
    && l.generation == scope.generation
    && l.revision == revision
    && not (revision == 0)
    && l.attempt_id =s= scope.attempt_id
    && l.pair_id =s= scope.pair_id
    && l.from_device_id =s= scope.from_device_id
    && l.to_device_id =s= scope.to_device_id

abbrev pub lease_ids_valid : Lease → Bool
lease_ids_valid l =
    valid_id l.attempt_id
    && valid_id l.pair_id
    && valid_id l.from_device_id
    && valid_id l.to_device_id
    && not (l.from_device_id =s= l.to_device_id)

-- `Lease.Verify`
unfoldable pub verify_lease :
    Service → Lease → Bytes → SignalScope → String → String → ℕ → ℕ → Result (Unit {0})
verify_lease service l public scope user_id network_id revision now = do
  reject
      (not (
        valid_id user_id
        && valid_id network_id
        && l.user_id =s= user_id
        && l.network_id =s= network_id))
      lease_scope_mismatch
  reject (not (lease_matches service l public scope revision)) lease_scope_mismatch
  reject (not (lease_ids_valid l)) lease_scope_mismatch
  reject (leb l.expires_at (unix now) || ltb (unix (now + minute)) l.expires_at) lease_expired
  reject (not (service.verify public (lease_fields l) l.signature)) identity_mismatch
