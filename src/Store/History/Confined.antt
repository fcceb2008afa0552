-- ===== src/Store/History/Confined.antt =====
-- internal/coordinator/pairing.go and certificates.go: the rows that a device's own calls change.
pub mod Actions
use Prim.Native.Char.{code}
use dshker_server.Prelude.{
  Bool, List, String, [], any, arith, commit, commit-bind, commit-ok, commit-reject, commit-then,
  count, invalid_pairing_code, invalid_request, not, ok, pairing_busy, refl, select, select-insert,
  select-update, sql_error, str_refl, suc, true, ℕ, ◌&&◌, ◌==◌, ◌=s=◌, ◌∙◌, ◌∷◌, ◌≡◌,
}
use dshker_server.Protocol.Ids.{unix, valid_id}
use dshker_server.Protocol.Service.{Service}
use dshker_server.Store.Bindings.{binding_owner}
use dshker_server.Store.Enrollment.{DeviceTelemetry, record_device_seen}
use dshker_server.Store.PairActions.{Peer, adopt_all, adopt_network, collect_peers, takes_part}
use dshker_server.Store.Pairing.{
  Share, adopt, blocks, device, insert_pair, invite, matching_share, same_owner, share, share_valid,
}
use dshker_server.Store.Schema.{Db, DeviceRow, PairRow, RenewalRow, ShareRow}

-- Whose rows they are.
abbrev pub of_others : String → DeviceRow → Bool
of_others id d = not (d.id =s= id)

abbrev pub without : String → PairRow → Bool
without id p = not (takes_part id p)

abbrev pub renews_other : String → RenewalRow → Bool
renews_other id r = not (r.device_id =s= id)

-- What a device has changed: of the devices and the renewals its own, of the pairs those that it
-- takes part in, the shares, and no other table.
pub record IsConfined (id : String) (db db' : Db) : Type 0 where
  pub rest : db' ≡ record db {
    devices = db'.devices;
    shares = db'.shares;
    pairs = db'.pairs;
    renewals = db'.renewals;
  }
  pub devices : select (of_others id) db'.devices ≡ select (of_others id) db.devices
  pub pairs : select (without id) db'.pairs ≡ select (without id) db.pairs
  pub renewals : select (renews_other id) db'.renewals ≡ select (renews_other id) db.renewals

pub keeps-IsConfined : (id : String) (db : Db) → IsConfined id db db
keeps-IsConfined id db = record { rest = refl; devices = refl; pairs = refl; renewals = refl }

joined-IsConfined :
    (id : String) (a b c : Db) → IsConfined id a b → IsConfined id b c → IsConfined id a c
joined-IsConfined id a b c h k = record {
  rest = ground (arith, h.rest, k.rest);
  devices = k.devices ∙ h.devices;
  pairs = k.pairs ∙ h.pairs;
  renewals = k.renewals ∙ h.renewals;
}

pub share-IsConfined :
    (service : Service) (nonce id network_id : String) (now : ℕ) (db : Db)
    → IsConfined id db (commit db (share service nonce id network_id now db))
unfolding share
share-IsConfined service nonce id network_id now db =
    commit-bind (IsConfined id db) db (device db id) _ (keeps-IsConfined id db) λ owner _.
      commit-then (IsConfined id db) db (binding_owner db network_id id) _ (keeps-IsConfined id db)
        λ _ _.
          commit-reject (IsConfined id db) db (any (λ (s : ShareRow). s.nonce =s= nonce) db.shares)
            sql_error _ (keeps-IsConfined id db)
            λ _.
              commit-ok (IsConfined id db) db _ _
                (record { rest = refl; devices = refl; pairs = refl; renewals = refl })

pub seen-IsConfined :
    (id : String) (telemetry : DeviceTelemetry) (now : ℕ) (db : Db)
    → IsConfined id db (commit db (record_device_seen id telemetry now db))
unfolding record_device_seen
seen-IsConfined id telemetry now db =
    commit-reject (IsConfined id db) db (not (valid_id id)) invalid_request _
      (keeps-IsConfined id db)
      λ _. commit-ok (IsConfined id db) db _ _ (record {
        rest = refl;
        devices =
            select-update (of_others id) (λ d. d.id =s= id && not d.revoked) _ db.devices
              (λ d h. ground arith) (λ d h. ground arith);
        pairs = refl;
        renewals = refl;
      })

-- The insertion of a pair of the device, over tables with the pairs of `db`.
insert_pair-IsConfined :
    (id : String) (p : PairRow) (db spent : Db)
    → spent ≡ record db { shares = spent.shares }
    → takes_part id p ≡ true
    → IsConfined id db (commit db (insert_pair p spent))
insert_pair-IsConfined id p db spent same mine =
    commit-reject (IsConfined id db) db (any (λ q. q.id =s= p.id) spent.pairs) sql_error _
      (keeps-IsConfined id db)
      λ _. commit-ok (IsConfined id db) db _ _ (record {
        rest = ground arith;
        devices = ground arith;
        pairs = ground (arith, select-insert (without id) db.pairs p);
        renewals = ground arith;
      })

pub invite-IsConfined :
    (service : Service) (id sender : String) (code : Share) (now : ℕ) (db : Db)
    → IsConfined sender db (commit db (invite service id sender code now db))
unfolding invite
invite-IsConfined service id sender code now db =
    let same = keeps-IsConfined sender db in
    commit-then (IsConfined sender db) db (device db sender) _ same λ _ _.
      commit-bind (IsConfined sender db) db (device db code.device_id) _ same λ target _.
        commit-reject (IsConfined sender db) db (not (share_valid service sender target code now))
          invalid_pairing_code _ same
          λ _.
            commit-bind (IsConfined sender db) db (binding_owner db code.network_id sender) _ same
              λ owner _.
                commit-then (IsConfined sender db) db
                  (same_owner (ok owner) (binding_owner db code.network_id target.id)) _ same
                  λ _ _.
                    commit-reject (IsConfined sender db) db
                      (not
                        (count (blocks code.network_id sender target.id (unix now)) db.pairs == 0))
                      pairing_busy _ same
                      λ _.
                        commit-reject (IsConfined sender db) db
                          (not (count (matching_share code (unix now)) db.shares == 1))
                          invalid_pairing_code _ same
                          λ _.
                            insert_pair-IsConfined sender _ db _ refl
                              (ground (arith, str_refl sender))

adopt-IsConfined :
    (id initiator target network_id : String) (now : ℕ) (db : Db)
    → IsConfined initiator db (commit db (adopt id initiator target network_id now db))
unfolding adopt
adopt-IsConfined id initiator target network_id now db =
    let same = keeps-IsConfined initiator db in
    commit-bind (IsConfined initiator db) db (binding_owner db network_id initiator) _ same
      λ owner _.
        commit-then (IsConfined initiator db) db
          (same_owner (ok owner) (binding_owner db network_id target)) _ same
          λ _ _.
            commit-reject (IsConfined initiator db) db
              (not (count (blocks network_id initiator target (unix now)) db.pairs == 0))
              pairing_busy _ same
              λ _. insert_pair-IsConfined initiator _ db _ refl (ground (arith, str_refl initiator))

adopt_all-IsConfined :
    (ids : ℕ → String) (n : ℕ) (me : String) (peers : List Peer) (now : ℕ) (start db : Db)
    → IsConfined me start db
    → IsConfined me start (adopt_all ids n me peers now db).1
unfolding adopt_all
adopt_all-IsConfined ids n me [] now start db h = h
adopt_all-IsConfined ids n me ((network_id, other) ∷ peers) now start db h =
    let next = commit db (adopt (ids n) me other network_id now db) in
    adopt_all-IsConfined ids (suc n) me peers now start next
      (joined-IsConfined me start db next h (adopt-IsConfined (ids n) me other network_id now db))

pub adopt_network-IsConfined :
    (ids : ℕ → String) (device_id : String) (now : ℕ) (db : Db)
    → IsConfined device_id db (commit db (adopt_network ids device_id now db))
unfolding adopt_network
adopt_network-IsConfined ids device_id now db =
    let same = keeps-IsConfined device_id db in
    commit-bind (IsConfined device_id db) db (device db device_id) _ same λ me _.
      commit-ok (IsConfined device_id db) db _ _
        (adopt_all-IsConfined ids 0 device_id (collect_peers db me db.bindings) now db db same)
