-- ===== src/Store/History/Networks.antt =====
-- What a call does to the networks.
use Prim.Native.Char.{code}
use dshker_server.Prelude.{
  String, [], any, ap, arith, commit, commit-bind, commit-if, commit-ok, commit-reject, commit-then,
  count, false, invalid_name, invalid_network_limit, leb, network_limit_reached, not, refl,
  sql_error, true, update, user_unauthorized, ℕ, ◌++◌, ◌<◌, ◌==◌, ◌=s=◌, ◌∷◌, ◌≡◌,
}
use dshker_server.Protocol.Ids.{valid_name}
use dshker_server.Protocol.Service.{Service}
use dshker_server.Store.Bindings.{delete_network, delete_row}
use dshker_server.Store.History.{
  Call, acts_on_pair, adopts_network, binds_device, creates_network, creates_user, deletes_network,
  deletes_pair, disables_user, enrolls, invites, issues_token, joins_network, limits_network,
  logs_in, logs_out, recovers_certificate, renames_network, renews_certificate, reports_seen,
  revokes_device, shares, step, unbinds_device,
}
use dshker_server.Store.History.DeviceFrames.{
  act_on_pair_frame, adopt_network_frame, enroll_frame, invite_frame, issue_enrollment_token_frame,
  join_network_frame, record_device_seen_frame, recover_certificate_frame, renew_certificate_frame,
  revoke_device_frame, share_frame,
}
use dshker_server.Store.History.Frames.{
  bind_device_frame, create_user_frame, delete_pair_frame, disable_user_frame, login_frame,
  logout_frame, unbind_device_frame,
}
use dshker_server.Store.Networks.{
  create_network, default_network_limit, is_users_network, network_owned, rename_network, set_limit,
  set_name, update_network_limit, valid_network_limit,
}
use dshker_server.Store.Schema.{Db, user_enabled}

-- What a call may do to the networks: nothing, a new one within its owner's two, or an edit of one.
pub data NetworkMove (db db' : Db) : Type 0 where
  keep : db'.networks ≡ db.networks → NetworkMove db db'
  establish :
      (id user_id name : String)
      → count (is_users_network user_id) db.networks < 2
      → any (λ n. n.id =s= id) db.networks ≡ false
      → db'.networks
        ≡ db.networks
          ++ record {
            id = id;
            user_id = user_id;
            name = name;
            deleted = false;
            max_devices = default_network_limit;
          }
            ∷ []
      → NetworkMove db db'
  rename :
      (id name : String)
      → db'.networks ≡ update (λ n. n.id =s= id) (set_name name) db.networks
      → NetworkMove db db'
  resize :
      (id : String) (limit : ℕ)
      → valid_network_limit limit ≡ true
      → db'.networks ≡ update (λ n. n.id =s= id) (set_limit limit) db.networks
      → NetworkMove db db'
  retire :
      (id : String)
      → db'.networks ≡ update (λ n. n.id =s= id) delete_row db.networks
      → NetworkMove db db'

create_network-NetworkMove :
    (id user_id name : String) (db : Db)
    → NetworkMove db (commit db (create_network id user_id name db))
unfolding create_network
create_network-NetworkMove id user_id name db =
    commit-reject (NetworkMove db) db (not (valid_name name)) invalid_name _ (keep refl) λ _.
      commit-reject (NetworkMove db) db (leb 2 (count (is_users_network user_id) db.networks))
        network_limit_reached _ (keep refl)
        λ few.
          commit-reject (NetworkMove db) db (not (user_enabled db user_id)) user_unauthorized _
            (keep refl)
            λ _.
              commit-reject (NetworkMove db) db (any (λ n. n.id =s= id) db.networks) sql_error _
                (keep refl)
                λ fresh.
                  commit-ok (NetworkMove db) db _ _
                    (establish id user_id name (ground arith) fresh refl)

rename_network-NetworkMove :
    (user_id id name : String) (db : Db)
    → NetworkMove db (commit db (rename_network user_id id name db))
unfolding rename_network
rename_network-NetworkMove user_id id name db =
    commit-reject (NetworkMove db) db (not (valid_name name)) invalid_name _ (keep refl) λ _.
      commit-bind (NetworkMove db) db (network_owned db user_id id) _ (keep refl) λ n _.
        commit-if (NetworkMove db) db (n.name =s= name) _ _
          (λ _. commit-ok (NetworkMove db) db _ _ (keep refl))
          (λ _. commit-ok (NetworkMove db) db _ _ (rename id name refl))

update_network_limit-NetworkMove :
    (user_id id : String) (limit now : ℕ) (db : Db)
    → NetworkMove db (commit db (update_network_limit user_id id limit now db))
unfolding update_network_limit
update_network_limit-NetworkMove user_id id limit now db =
    commit-reject (NetworkMove db) db (not (valid_network_limit limit)) invalid_network_limit _
      (keep refl)
      λ valid. commit-bind (NetworkMove db) db (network_owned db user_id id) _ (keep refl) λ n _.
        commit-if (NetworkMove db) db (n.max_devices == limit) _ _
          (λ _. commit-ok (NetworkMove db) db _ _ (keep refl))
          (λ _. commit-ok (NetworkMove db) db _ _ (resize id limit (ground arith) refl))

delete_network-NetworkMove :
    (user_id id : String) (now : ℕ) (db : Db)
    → NetworkMove db (commit db (delete_network user_id id now db))
unfolding delete_network
delete_network-NetworkMove user_id id now db =
    commit-then (NetworkMove db) db (network_owned db user_id id) _ (keep refl)
      λ _ _. commit-ok (NetworkMove db) db _ _ (retire id refl)

-- Every call leaves the networks, or adds one of the default capacity with a new identifier for
-- an owner who had fewer than two, or renames one, or gives one a capacity that is allowed, or
-- marks one deleted.
pub step-NetworkMove :
    (service : Service) (db : Db) (now : ℕ) (c : Call) → NetworkMove db (step service db (now, c))
unfolding step
step-NetworkMove service db now (creates_user id email password) =
    keep (ap (λ s. s.networks) (create_user_frame service id email password db))
step-NetworkMove service db now (logs_in busy secret username password) =
    keep (ap (λ s. s.networks) (login_frame service busy secret username password now db))
step-NetworkMove service db now (logs_out token) =
    keep (ap (λ s. s.networks) (logout_frame service token db))
step-NetworkMove service db now (disables_user id) =
    keep (ap (λ s. s.networks) (disable_user_frame id now db))
step-NetworkMove service db now (creates_network id user_id name) =
    create_network-NetworkMove id user_id name db
step-NetworkMove service db now (renames_network user_id id name) =
    rename_network-NetworkMove user_id id name db
step-NetworkMove service db now (limits_network user_id id limit) =
    update_network_limit-NetworkMove user_id id limit now db
step-NetworkMove service db now (deletes_network user_id id) =
    delete_network-NetworkMove user_id id now db
step-NetworkMove service db now (binds_device user_id network_id device_id) =
    keep (ap (λ s. s.networks) (bind_device_frame user_id network_id device_id db))
step-NetworkMove service db now (unbinds_device user_id network_id device_id) =
    keep (ap (λ s. s.networks) (unbind_device_frame user_id network_id device_id now db))
step-NetworkMove service db now (deletes_pair user_id network_id pair_id) =
    keep (ap (λ s. s.networks) (delete_pair_frame user_id network_id pair_id now db))
step-NetworkMove service db now (issues_token secret user_id network_id) =
    keep
      (ap (λ s. s.networks) (issue_enrollment_token_frame service secret user_id network_id now db))
step-NetworkMove service db now (enrolls request) =
    keep (ap (λ s. s.networks) (enroll_frame service request now db))
step-NetworkMove service db now (joins_network request) =
    keep (ap (λ s. s.networks) (join_network_frame service request now db))
step-NetworkMove service db now (reports_seen id telemetry) =
    keep (ap (λ s. s.networks) (record_device_seen_frame id telemetry now db))
step-NetworkMove service db now (shares nonce id network_id) =
    keep (ap (λ s. s.networks) (share_frame service nonce id network_id now db))
step-NetworkMove service db now (invites id sender code) =
    keep (ap (λ s. s.networks) (invite_frame service id sender code now db))
step-NetworkMove service db now (adopts_network ids device_id) =
    keep (ap (λ s. s.networks) (adopt_network_frame ids device_id now db))
step-NetworkMove service db now (acts_on_pair device_id pair_id action fingerprint) =
    keep
      (ap (λ s. s.networks) (act_on_pair_frame service device_id pair_id action fingerprint now db))
step-NetworkMove service db now (renews_certificate certificate request) =
    keep (ap (λ s. s.networks) (renew_certificate_frame service certificate request now db))
step-NetworkMove service db now (recovers_certificate request) =
    keep (ap (λ s. s.networks) (recover_certificate_frame service request now db))
step-NetworkMove service db now (revokes_device id) =
    keep (ap (λ s. s.networks) (revoke_device_frame id now db))
