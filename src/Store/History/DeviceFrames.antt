-- ===== src/Store/History/DeviceFrames.antt =====
-- The tables that the operations on devices, pairs and certificates can change.
use Prim.Native.Char.{code}
use dshker_server.Prelude.{
  List, String, [], arith, commit, commit-bind, commit-ok, refl, suc, ℕ, ◌∷◌, ◌≡◌,
}
use dshker_server.Protocol.Service.{Service}
use dshker_server.Store.Certificates.{
  Certificate, CertificateRecovery, Renewal, check_recovery_token, recover_certificate,
  renew_certificate, replace_certificate, revoke_device,
}
use dshker_server.Store.Enrollment.{
  DeviceTelemetry, Enrollment, NetworkJoin, consume_token, enroll, issue_enrollment_token,
  join_network, record_device_seen, upsert_device,
}
use dshker_server.Store.History.Frames.{framed}
use dshker_server.Store.PairActions.{Peer, act_on_pair, adopt_all, adopt_network, collect_peers}
use dshker_server.Store.Pairing.{Share, adopt, device, invite, share}
use dshker_server.Store.Schema.{Db}

abbrev pub issue_enrollment_token_touched : Db → Db → Db
issue_enrollment_token_touched db s = record db { tokens = s.tokens }

pub issue_enrollment_token_frame :
    (service : Service) (secret user_id network_id : String) (now : ℕ) (db : Db)
    → let s = commit db (issue_enrollment_token service secret user_id network_id now db) in
      s ≡ issue_enrollment_token_touched db s
unfolding issue_enrollment_token
issue_enrollment_token_frame service secret user_id network_id now db =
    framed issue_enrollment_token_touched
      (issue_enrollment_token service secret user_id network_id now db) db refl
      λ a s h. ground arith

abbrev pub enroll_touched : Db → Db → Db
enroll_touched db s = record db {
  tokens = s.tokens;
  devices = s.devices;
  device_users = s.device_users;
  bindings = s.bindings;
  audit = s.audit;
}

pub enroll_frame :
    (service : Service) (request : Enrollment) (now : ℕ) (db : Db)
    → let s = commit db (enroll service request now db) in s ≡ enroll_touched db s
unfolding enroll consume_token upsert_device
enroll_frame service request now db =
    framed enroll_touched (enroll service request now db) db refl λ a s h. ground arith

abbrev pub join_network_touched : Db → Db → Db
join_network_touched db s = record db {
  devices = s.devices;
  device_users = s.device_users;
  bindings = s.bindings;
  audit = s.audit;
}

pub join_network_frame :
    (service : Service) (request : NetworkJoin) (now : ℕ) (db : Db)
    → let s = commit db (join_network service request now db) in s ≡ join_network_touched db s
unfolding join_network upsert_device
join_network_frame service request now db =
    framed join_network_touched (join_network service request now db) db refl λ a s h. ground arith

abbrev pub record_device_seen_touched : Db → Db → Db
record_device_seen_touched db s = record db { devices = s.devices }

pub record_device_seen_frame :
    (id : String) (telemetry : DeviceTelemetry) (now : ℕ) (db : Db)
    → let s = commit db (record_device_seen id telemetry now db) in
      s ≡ record_device_seen_touched db s
unfolding record_device_seen
record_device_seen_frame id telemetry now db =
    framed record_device_seen_touched (record_device_seen id telemetry now db) db refl
      λ a s h. ground arith

abbrev pub share_touched : Db → Db → Db
share_touched db s = record db { shares = s.shares }

pub share_frame :
    (service : Service) (nonce id network_id : String) (now : ℕ) (db : Db)
    → let s = commit db (share service nonce id network_id now db) in s ≡ share_touched db s
unfolding share
share_frame service nonce id network_id now db =
    framed share_touched (share service nonce id network_id now db) db refl λ a s h. ground arith

abbrev pub invite_touched : Db → Db → Db
invite_touched db s = record db { shares = s.shares; pairs = s.pairs }

pub invite_frame :
    (service : Service) (id sender : String) (code : Share) (now : ℕ) (db : Db)
    → let s = commit db (invite service id sender code now db) in s ≡ invite_touched db s
unfolding invite
invite_frame service id sender code now db =
    framed invite_touched (invite service id sender code now db) db refl λ a s h. ground arith

abbrev pub adopt_touched : Db → Db → Db
adopt_touched db s = record db { pairs = s.pairs }

pub adopt_frame :
    (id initiator target network_id : String) (now : ℕ) (db : Db)
    → let s = commit db (adopt id initiator target network_id now db) in s ≡ adopt_touched db s
unfolding adopt
adopt_frame id initiator target network_id now db =
    framed adopt_touched (adopt id initiator target network_id now db) db refl λ a s h. ground arith

abbrev pub act_on_pair_touched : Db → Db → Db
act_on_pair_touched db s = record db { pairs = s.pairs }

pub act_on_pair_frame :
    (service : Service) (device_id pair_id action fingerprint : String) (now : ℕ) (db : Db)
    → let s = commit db (act_on_pair service device_id pair_id action fingerprint now db) in
      s ≡ act_on_pair_touched db s
unfolding act_on_pair
act_on_pair_frame service device_id pair_id action fingerprint now db =
    framed act_on_pair_touched (act_on_pair service device_id pair_id action fingerprint now db) db
      refl λ a s h. ground arith

abbrev pub renew_certificate_touched : Db → Db → Db
renew_certificate_touched db s = record db {
  devices = s.devices;
  tokens = s.tokens;
  renewals = s.renewals;
}

pub renew_certificate_frame :
    (service : Service) (certificate : Certificate) (request : Renewal) (now : ℕ) (db : Db)
    → let s = commit db (renew_certificate service certificate request now db) in
      s ≡ renew_certificate_touched db s
unfolding renew_certificate replace_certificate check_recovery_token consume_token
renew_certificate_frame service certificate request now db =
    framed renew_certificate_touched (renew_certificate service certificate request now db) db refl
      λ a s h. ground arith

abbrev pub recover_certificate_touched : Db → Db → Db
recover_certificate_touched db s = record db {
  devices = s.devices;
  tokens = s.tokens;
  renewals = s.renewals;
}

pub recover_certificate_frame :
    (service : Service) (request : CertificateRecovery) (now : ℕ) (db : Db)
    → let s = commit db (recover_certificate service request now db) in
      s ≡ recover_certificate_touched db s
unfolding recover_certificate replace_certificate check_recovery_token consume_token
recover_certificate_frame service request now db =
    framed recover_certificate_touched (recover_certificate service request now db) db refl
      λ a s h. ground arith

abbrev pub revoke_device_touched : Db → Db → Db
revoke_device_touched db s = record db { devices = s.devices; pairs = s.pairs; audit = s.audit }

pub revoke_device_frame :
    (id : String) (now : ℕ) (db : Db)
    → let s = commit db (revoke_device id now db) in s ≡ revoke_device_touched db s
unfolding revoke_device
revoke_device_frame id now db =
    framed revoke_device_touched (revoke_device id now db) db refl λ a s h. ground arith

-- The loop of adoption touches what its rounds touch.
adopt_all_frame :
    (ids : ℕ → String) (n : ℕ) (me : String) (peers : List Peer) (now : ℕ) (db : Db)
    → let s = (adopt_all ids n me peers now db).1 in s ≡ adopt_touched db s
unfolding adopt_all
adopt_all_frame ids n me [] now db = refl
adopt_all_frame ids n me ((network_id, other) ∷ peers) now db = ground (
  arith,
  adopt_frame (ids n) me other network_id now db,
  adopt_all_frame ids (suc n) me peers now (commit db (adopt (ids n) me other network_id now db)),
)

pub adopt_network_frame :
    (ids : ℕ → String) (device_id : String) (now : ℕ) (db : Db)
    → let s = commit db (adopt_network ids device_id now db) in s ≡ adopt_touched db s
unfolding adopt_network
adopt_network_frame ids device_id now db =
    commit-bind (λ s. s ≡ adopt_touched db s) db (device db device_id) _ refl
      λ me _.
        commit-ok (λ s. s ≡ adopt_touched db s) db _ _
          (adopt_all_frame ids 0 device_id (collect_peers db me db.bindings) now db)
