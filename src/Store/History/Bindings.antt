-- ===== src/Store/History/Bindings.antt =====
-- What a call does to the bindings.
use Prim.Native.Char.{code}
use dshker_server.Prelude.{
  Bool, Option, String, ap, arith, commit, commit-bind, commit-ok, commit-reject, commit-then,
  false, if◌then◌else◌, inl, inr, none, ok, refl, some, true, update, ℕ, ◌=s=◌, ◌∙◌, ◌≡◌, ◌⊎◌,
}
use dshker_server.Protocol.Service.{Service}
use dshker_server.Store.Bindings.{
  bind_device, bind_row, binding_owner, delete_network, device_owned, is_binding, is_bound,
  set_active, unbind_device,
}
use dshker_server.Store.Enrollment.{
  Enrollment, NetworkJoin, admit_to, consume_token, enroll, join_network, join_owner, new_device,
  token_scope, upsert_device,
}
use dshker_server.Store.History.{
  Call, acts_on_pair, adopts_network, binds_device, creates_network, creates_user, deletes_network,
  deletes_pair, disables_user, enrolls, invites, issues_token, joins_network, limits_network,
  logs_in, logs_out, recovers_certificate, renames_network, renews_certificate, reports_seen,
  revokes_device, shares, step, unbinds_device,
}
use dshker_server.Store.History.DeviceFrames.{
  act_on_pair_frame, adopt_network_frame, invite_frame, issue_enrollment_token_frame,
  record_device_seen_frame, recover_certificate_frame, renew_certificate_frame, revoke_device_frame,
  share_frame,
}
use dshker_server.Store.History.Frames.{
  create_network_frame, create_user_frame, delete_pair_frame, disable_user_frame, login_frame,
  logout_frame, rename_network_frame, update_network_limit_frame,
}
use dshker_server.Store.Networks.{binding_fits_capacity, network_owned, require_capacity}
use dshker_server.Store.Pairing.{Device}
use dshker_server.Store.Schema.{BindingRow, Db}

-- What a call may do to the bindings: nothing, one binding for which there is room, or releases.
pub data BindingMove (db db' : Db) : Type 0 where
  keep : db'.bindings ≡ db.bindings → BindingMove db db'
  enter :
      (network_id device_id : String)
      → (is_bound db network_id device_id ≡ true)
        ⊎ (binding_fits_capacity db network_id ≡ some true)
      → db'.bindings ≡ bind_row network_id device_id db.bindings
      → BindingMove db db'
  release :
      (p : BindingRow → Bool)
      → db'.bindings ≡ update p (set_active false) db.bindings
      → BindingMove db db'

require_capacity_ok : (o : Option Bool) {u : Unit {0}} → require_capacity o ≡ ok u → o ≡ some true
require_capacity_ok none h = cc
require_capacity_ok (some true) h = refl
require_capacity_ok (some false) h = cc

-- The test of `bind_device`: a bound device needs no room.
room_for :
    (bound : Bool) (o : Option Bool) {u : Unit {0}}
    → (if bound then ok tt else require_capacity o) ≡ ok u
    → (bound ≡ true) ⊎ (o ≡ some true)
room_for true o h = inl refl
room_for false o h = inr (require_capacity_ok o h)

bind_device-BindingMove :
    (user_id network_id device_id : String) (db : Db)
    → BindingMove db (commit db (bind_device user_id network_id device_id db))
unfolding bind_device
bind_device-BindingMove user_id network_id device_id db =
    commit-then (BindingMove db) db (network_owned db user_id network_id) _ (keep refl) λ _ _.
      commit-then (BindingMove db) db (device_owned db user_id device_id) _ (keep refl) λ _ _.
        commit-then (BindingMove db) db
          (if is_bound db network_id device_id
            then ok tt
            else require_capacity (binding_fits_capacity db network_id))
          _ (keep refl)
          λ _ room. commit-ok (BindingMove db) db _ _ (
            enter network_id device_id
              (room_for (is_bound db network_id device_id) (binding_fits_capacity db network_id)
                room)
              refl)

unbind_device-BindingMove :
    (user_id network_id device_id : String) (now : ℕ) (db : Db)
    → BindingMove db (commit db (unbind_device user_id network_id device_id now db))
unfolding unbind_device
unbind_device-BindingMove user_id network_id device_id now db =
    commit-then (BindingMove db) db (network_owned db user_id network_id) _ (keep refl) λ _ _.
      commit-then (BindingMove db) db (binding_owner db network_id device_id) _ (keep refl)
        λ _ _. commit-ok (BindingMove db) db _ _ (release (is_binding network_id device_id) refl)

delete_network-BindingMove :
    (user_id id : String) (now : ℕ) (db : Db)
    → BindingMove db (commit db (delete_network user_id id now db))
unfolding delete_network
delete_network-BindingMove user_id id now db =
    commit-then (BindingMove db) db (network_owned db user_id id) _ (keep refl)
      λ _ _. commit-ok (BindingMove db) db _ _ (release (λ b. b.network_id =s= id) refl)

-- Entering the device leaves the bindings.
upsert_device-bindings :
    (dev : Device) (request_id : String) (db : Db) {e : Device × Db}
    → upsert_device dev request_id db ≡ ok e
    → e.1.bindings ≡ db.bindings
unfolding upsert_device
upsert_device-bindings dev request_id db h = ground arith

consume_token-bindings :
    (service : Service) (token : String) (now : ℕ) (db : Db) {e : Unit {0} × Db}
    → consume_token service token now db ≡ ok e
    → e.1.bindings ≡ db.bindings
unfolding consume_token
consume_token-bindings service token now db h = ground arith

-- The last step of an admission, over tables with the bindings of `db`.
admit_to-BindingMove :
    (event user_id network_id : String) (now : ℕ) (e : Device × Db) (db : Db)
    → e.1.bindings ≡ db.bindings
    → binding_fits_capacity db network_id ≡ some true
    → BindingMove db (commit db (admit_to event user_id network_id now e))
admit_to-BindingMove event user_id network_id now (dev, entered) db same room =
    commit-ok (BindingMove db) db _ _
      (enter network_id dev.id (inr room) (ap (bind_row network_id dev.id) same))

enroll-BindingMove :
    (service : Service) (request : Enrollment) (now : ℕ) (db : Db)
    → BindingMove db (commit db (enroll service request now db))
unfolding enroll
enroll-BindingMove service request now db = commit-reject (BindingMove db) db _ _ _ (keep refl) λ _.
    commit-bind (BindingMove db) db (service.csr_key request.csr) _ (keep refl) λ key _.
      commit-bind (BindingMove db) db (token_scope service db request.token now) _ (keep refl)
        λ scope _.
          commit-then (BindingMove db) db (require_capacity (binding_fits_capacity db scope.1)) _
            (keep refl)
            λ _ room.
              commit-bind (BindingMove db) db (consume_token service request.token now db) _
                (keep refl)
                λ spent es.
                  commit-bind (BindingMove db) db
                    (upsert_device (new_device service key scope.0 request.name now)
                      request.request_id spent.1)
                    _ (keep refl)
                    λ entered ee.
                      admit_to-BindingMove "enrolled" scope.0 scope.1 now entered db
                        (upsert_device-bindings _ _ _ ee
                          ∙ consume_token-bindings service request.token now db es)
                        (require_capacity_ok _ room)

join_network-BindingMove :
    (service : Service) (request : NetworkJoin) (now : ℕ) (db : Db)
    → BindingMove db (commit db (join_network service request now db))
unfolding join_network
join_network-BindingMove service request now db =
    commit-reject (BindingMove db) db _ _ _ (keep refl) λ _.
      commit-bind (BindingMove db) db (service.csr_key request.csr) _ (keep refl) λ key _.
        commit-bind (BindingMove db) db (join_owner service db request.network_id) _ (keep refl)
          λ owner _.
            commit-then (BindingMove db) db
              (require_capacity (binding_fits_capacity db request.network_id)) _ (keep refl)
              λ _ room.
                commit-bind (BindingMove db) db
                  (upsert_device (new_device service key owner request.name now) request.request_id
                    db)
                  _ (keep refl)
                  λ entered ee.
                    admit_to-BindingMove "network-join" owner request.network_id now entered db
                      (upsert_device-bindings _ _ _ ee) (require_capacity_ok _ room)

-- Every call leaves the bindings, or activates the binding of one device that was active already
-- or whose network had room, or deactivates some.
pub step-BindingMove :
    (service : Service) (db : Db) (now : ℕ) (c : Call) → BindingMove db (step service db (now, c))
unfolding step
step-BindingMove service db now (creates_user id email password) =
    keep (ap (λ s. s.bindings) (create_user_frame service id email password db))
step-BindingMove service db now (logs_in busy secret username password) =
    keep (ap (λ s. s.bindings) (login_frame service busy secret username password now db))
step-BindingMove service db now (logs_out token) =
    keep (ap (λ s. s.bindings) (logout_frame service token db))
step-BindingMove service db now (disables_user id) =
    keep (ap (λ s. s.bindings) (disable_user_frame id now db))
step-BindingMove service db now (creates_network id user_id name) =
    keep (ap (λ s. s.bindings) (create_network_frame id user_id name db))
step-BindingMove service db now (renames_network user_id id name) =
    keep (ap (λ s. s.bindings) (rename_network_frame user_id id name db))
step-BindingMove service db now (limits_network user_id id limit) =
    keep (ap (λ s. s.bindings) (update_network_limit_frame user_id id limit now db))
step-BindingMove service db now (deletes_network user_id id) =
    delete_network-BindingMove user_id id now db
step-BindingMove service db now (binds_device user_id network_id device_id) =
    bind_device-BindingMove user_id network_id device_id db
step-BindingMove service db now (unbinds_device user_id network_id device_id) =
    unbind_device-BindingMove user_id network_id device_id now db
step-BindingMove service db now (deletes_pair user_id network_id pair_id) =
    keep (ap (λ s. s.bindings) (delete_pair_frame user_id network_id pair_id now db))
step-BindingMove service db now (issues_token secret user_id network_id) =
    keep
      (ap (λ s. s.bindings) (issue_enrollment_token_frame service secret user_id network_id now db))
step-BindingMove service db now (enrolls request) = enroll-BindingMove service request now db
step-BindingMove service db now (joins_network request) =
    join_network-BindingMove service request now db
step-BindingMove service db now (reports_seen id telemetry) =
    keep (ap (λ s. s.bindings) (record_device_seen_frame id telemetry now db))
step-BindingMove service db now (shares nonce id network_id) =
    keep (ap (λ s. s.bindings) (share_frame service nonce id network_id now db))
step-BindingMove service db now (invites id sender code) =
    keep (ap (λ s. s.bindings) (invite_frame service id sender code now db))
step-BindingMove service db now (adopts_network ids device_id) =
    keep (ap (λ s. s.bindings) (adopt_network_frame ids device_id now db))
step-BindingMove service db now (acts_on_pair device_id pair_id action fingerprint) =
    keep
      (ap (λ s. s.bindings) (act_on_pair_frame service device_id pair_id action fingerprint now db))
step-BindingMove service db now (renews_certificate certificate request) =
    keep (ap (λ s. s.bindings) (renew_certificate_frame service certificate request now db))
step-BindingMove service db now (recovers_certificate request) =
    keep (ap (λ s. s.bindings) (recover_certificate_frame service request now db))
step-BindingMove service db now (revokes_device id) =
    keep (ap (λ s. s.bindings) (revoke_device_frame id now db))
