-- ===== src/Store/History/PairSteps.antt =====
-- What each operation does to the pairs, as moves of the table.
pub mod Actions
pub mod Adoptions
use Prim.Native.Char.{code}
use dshker_server.Prelude.{
  String, any, arith, commit, commit-bind, commit-ok, commit-reject, commit-then, count,
  device_unauthorized, invalid_pairing_code, not, ok, pair_unauthorized, pairing_busy, refl,
  sql_error, user_not_found, ℕ, ◌&&◌, ◌==◌, ◌=s=◌, ◌≡◌,
}
use dshker_server.Protocol.Ids.{unix}
use dshker_server.Protocol.Service.{Service}
use dshker_server.Store.Bindings.{
  binding_owner, delete_network, delete_pair, in_network, is_open_pair, pair_touches, unbind_device,
}
use dshker_server.Store.Certificates.{revoke_device}
use dshker_server.Store.History.Machine.{IsInitial, PairMove, by_invitation, close, join}
use dshker_server.Store.Networks.{network_owned}
use dshker_server.Store.PairActions.{takes_part}
use dshker_server.Store.Pairing.{
  Share, blocks, device, insert_pair, invite, matching_share, same_owner, share_valid,
}
use dshker_server.Store.Schema.{Db, DeviceRow, PairRow}
use dshker_server.Store.Users.{disable_user, pair_of_user}

pub delete_network-PairMove :
    (user_id id : String) (now : ℕ) (db : Db)
    → PairMove (unix now) db (commit db (delete_network user_id id now db))
unfolding delete_network
delete_network-PairMove user_id id now db =
    commit-then (PairMove (unix now) db) db (network_owned db user_id id) _ (PairMove.keep refl)
      λ _ _. commit-ok (PairMove (unix now) db) db _ _ (close (in_network id) refl)

pub unbind_device-PairMove :
    (user_id network_id device_id : String) (now : ℕ) (db : Db)
    → PairMove (unix now) db (commit db (unbind_device user_id network_id device_id now db))
unfolding unbind_device
unbind_device-PairMove user_id network_id device_id now db =
    commit-then (PairMove (unix now) db) db (network_owned db user_id network_id) _
      (PairMove.keep refl)
      λ _ _.
        commit-then (PairMove (unix now) db) db (binding_owner db network_id device_id) _
          (PairMove.keep refl)
          λ _ _.
            commit-ok (PairMove (unix now) db) db _ _
              (close (pair_touches network_id device_id) refl)

pub delete_pair-PairMove :
    (user_id network_id pair_id : String) (now : ℕ) (db : Db)
    → PairMove (unix now) db (commit db (delete_pair user_id network_id pair_id now db))
unfolding delete_pair
delete_pair-PairMove user_id network_id pair_id now db =
    commit-then (PairMove (unix now) db) db (network_owned db user_id network_id) _
      (PairMove.keep refl)
      λ _ _.
        commit-reject (PairMove (unix now) db) db
          (not (count (is_open_pair network_id pair_id) db.pairs == 1)) pair_unauthorized _
          (PairMove.keep refl)
          λ _.
            commit-ok (PairMove (unix now) db) db _ _ (close (is_open_pair network_id pair_id) refl)

pub disable_user-PairMove :
    (id : String) (now : ℕ) (db : Db) → PairMove (unix now) db (commit db (disable_user id now db))
unfolding disable_user
disable_user-PairMove id now db =
    commit-reject (PairMove (unix now) db) db
      (not (count (λ u. u.id =s= id && not u.disabled) db.users == 1)) user_not_found _
      (PairMove.keep refl)
      λ _. commit-ok (PairMove (unix now) db) db _ _ (close (pair_of_user db id) refl)

pub revoke_device-PairMove :
    (id : String) (now : ℕ) (db : Db) → PairMove (unix now) db (commit db (revoke_device id now db))
unfolding revoke_device
revoke_device-PairMove id now db =
    commit-reject (PairMove (unix now) db) db
      (not (count (λ (d : DeviceRow). d.id =s= id && not d.revoked) db.devices == 1))
      device_unauthorized _ (PairMove.keep refl)
      λ _. commit-ok (PairMove (unix now) db) db _ _ (close (takes_part id) refl)

-- The insertion of a pair, over tables with the pairs of `db`.
insert_pair-PairMove :
    (p : PairRow) (at : ℕ) (db spent : Db)
    → spent.pairs ≡ db.pairs
    → IsInitial p.state
    → p.revision ≡ 1
    → count (blocks p.network_id p.initiator p.target at) db.pairs ≡ 0
    → PairMove at db (commit db (insert_pair p spent))
insert_pair-PairMove p at db spent same initial first free =
    commit-reject (PairMove at db) db (any (λ q. q.id =s= p.id) spent.pairs) sql_error _
      (PairMove.keep refl)
      λ fresh.
        commit-ok (PairMove at db) db _ _ (join p initial first (rw same at fresh) free (rw same))

pub invite-PairMove :
    (service : Service) (id sender : String) (code : Share) (now : ℕ) (db : Db)
    → PairMove (unix now) db (commit db (invite service id sender code now db))
unfolding invite
invite-PairMove service id sender code now db =
    commit-then (PairMove (unix now) db) db (device db sender) _ (PairMove.keep refl) λ _ _.
      commit-bind (PairMove (unix now) db) db (device db code.device_id) _ (PairMove.keep refl)
        λ target _.
          commit-reject (PairMove (unix now) db) db
            (not (share_valid service sender target code now)) invalid_pairing_code _
            (PairMove.keep refl)
            λ _.
              commit-bind (PairMove (unix now) db) db (binding_owner db code.network_id sender) _
                (PairMove.keep refl)
                λ owner _.
                  commit-then (PairMove (unix now) db) db
                    (same_owner (ok owner) (binding_owner db code.network_id target.id)) _
                    (PairMove.keep refl)
                    λ _ _.
                      commit-reject (PairMove (unix now) db) db
                        (not (
                          count (blocks code.network_id sender target.id (unix now)) db.pairs == 0))
                        pairing_busy _ (PairMove.keep refl)
                        λ free.
                          commit-reject (PairMove (unix now) db) db
                            (not (count (matching_share code (unix now)) db.shares == 1))
                            invalid_pairing_code _ (PairMove.keep refl)
                            λ _.
                              insert_pair-PairMove _ (unix now) db _ refl by_invitation refl
                                (ground arith)
