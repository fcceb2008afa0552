-- ===== src/Store/History/Confined/Actions.antt =====
-- internal/coordinator/pairing.go, `ActOnPair`, and certificates.go: what they change of a device.
use dshker_server.Prelude.{
  Option-cases, String, any, arith, commit, commit-all, commit-ok, commit-reject,
  device_unauthorized, find, identity_mismatch, inl, inr, ltb, not, ok, refl, renewal_not_due,
  request_conflict, select-insert, select-update, select-update_found, some, str_refl, ℕ, ◌&&◌, ◌+◌,
  ◌=s=◌, ◌≡◌,
}
use dshker_server.Protocol.Ids.{Bytes, valid_id}
use dshker_server.Protocol.Service.{Service}
use dshker_server.Store.Bindings.{device_live}
use dshker_server.Store.Certificates.{
  Certificate, Renewal, authenticate, csr_matches, is_renewal, renew_certificate,
  replace_certificate, set_certificate, store_certificate, week,
}
use dshker_server.Store.History.Confined.{
  IsConfined, keeps-IsConfined, of_others, renews_other, without,
}
use dshker_server.Store.History.PairSteps.Actions.{get_pair-find}
use dshker_server.Store.PairActions.{act_on_pair, advance, same_revision, takes_part}
use dshker_server.Store.PairActions.Rights.{act_on_pair-Acted}
use dshker_server.Store.Pairing.{Device}
use dshker_server.Store.Schema.{Db}

-- The one row that an action changes is a pair of the device.
pub act_on_pair-IsConfined :
    (service : Service) (device_id pair_id action fingerprint : String) (now : ℕ) (db : Db)
    → IsConfined device_id db
        (commit db (act_on_pair service device_id pair_id action fingerprint now db))
act_on_pair-IsConfined service device_id pair_id action fingerprint now db =
    commit-all (IsConfined device_id db) db
      (act_on_pair service device_id pair_id action fingerprint now db)
      (keeps-IsConfined device_id db)
      λ updated db' h.
        let a =
          act_on_pair-Acted service device_id pair_id action fingerprint now db updated db' h in
        let pairs =
          select-update_found (without device_id) (same_revision a.pair)
            (λ q. takes_part device_id q && q.id =s= pair_id) (advance a.next) db.pairs
            (ground (arith, a.unique)) (get_pair-find db device_id pair_id a.found)
            (ground (arith, str_refl a.pair.id)) (λ q h. ground arith) (λ q. refl) in
        record {
          rest = ground (arith, a.wrote);
          devices = ground (arith, a.wrote);
          pairs = ground (arith, a.wrote, pairs);
          renewals = ground (arith, a.wrote);
        }

store_certificate-IsConfined :
    (service : Service) (dev : Device) (request_id : String) (certificate : Bytes) (db : Db)
    → IsConfined dev.id db (commit db (store_certificate service dev request_id certificate db))
store_certificate-IsConfined service dev request_id certificate db =
    commit-reject (IsConfined dev.id db) db (any (is_renewal dev.id request_id) db.renewals)
      request_conflict _ (keeps-IsConfined dev.id db)
      λ _. commit-ok (IsConfined dev.id db) db _ _ (record {
        rest = refl;
        devices =
            select-update (of_others dev.id) (λ d. d.id =s= dev.id) (set_certificate certificate)
              db.devices (λ d h. ground arith) (λ d h. ground arith);
        pairs = refl;
        renewals =
            select-insert (renews_other dev.id) db.renewals _ (ground (arith, str_refl dev.id));
      })

-- An empty token is that of a renewal.
replace_certificate-IsConfined :
    (service : Service) (dev : Device) (request_id : String) (now : ℕ) (db : Db)
    → IsConfined dev.id db (commit db (replace_certificate service dev request_id "" now db))
unfolding replace_certificate commit
replace_certificate-IsConfined service dev request_id now db =
    commit-reject (IsConfined dev.id db) db (not (device_live db dev.id)) device_unauthorized _
      (keeps-IsConfined dev.id db)
      λ _. elim (Option-cases (find (is_renewal dev.id request_id) db.renewals)) [
        | inl e ↦ rw (str_refl "", e) (store_certificate-IsConfined service dev request_id _ db)
        | inr (saved, e) ↦ rw (str_refl "", e) (keeps-IsConfined dev.id db)
      ]

-- A renewal is that of the device that the certificate shows.
pub renew_certificate-IsConfined :
    (service : Service) (certificate : Certificate) (request : Renewal) (now : ℕ) (db : Db)
    (dev : Device)
    → authenticate db (some certificate) ≡ ok dev
    → IsConfined dev.id db (commit db (renew_certificate service certificate request now db))
unfolding renew_certificate commit
renew_certificate-IsConfined service certificate request now db dev shown =
    let same = keeps-IsConfined dev.id db in
    rw shown (
      commit-reject (IsConfined dev.id db) db
        (not
          (csr_matches (service.csr_key request.csr) dev.public_key && valid_id request.request_id))
        identity_mismatch _ same
        λ _. elim (Option-cases (find (is_renewal dev.id request.request_id) db.renewals)) [
          | inr (saved, e) ↦ rw e same
          | inl e ↦ rw e (
              commit-reject (IsConfined dev.id db) db (ltb (now + week) certificate.expires)
                renewal_not_due _ same
                λ _. replace_certificate-IsConfined service dev request.request_id now db)
        ])
