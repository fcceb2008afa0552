-- ===== src/Store/History/PairSteps/Actions.antt =====
-- internal/coordinator/pairing.go, `ActOnPair`, as a move of the pairs.
use dshker_server.Prelude.{
  String, arith, commit, commit-bind, commit-ok, commit-reject, commit-then, count, find,
  find-select, invalid_pair_action, not, ok, or_fail, pair_state_conflict, refl, some, update, ℕ,
  ◌&&◌, ◌<◌, ◌==◌, ◌=s=◌, ◌||◌, ◌≡◌, ◌⊎◌,
}
use dshker_server.Protocol.Ids.{unix}
use dshker_server.Protocol.Service.{Service}
use dshker_server.Store.History.Machine.{PairMove, approves, change, closes, confirms, rejects, ◌⟶◌}
use dshker_server.Store.PairActions.{
  PairAction, act_on_pair, advance, approve, authorize_pair, confirm, end_revoked, get_pair,
  list_pairs, next_state, pair_action, reject_invite, revoke, same_revision, takes_part,
}
use dshker_server.Store.Schema.{Db, PairRow, PairState, active, revoked}

-- The change of a pair at a time: along an edge, and of an unexpired pair unless it is revoked.
abbrev Goes : PairRow → ℕ → PairState → Type 0
Goes p at next = (p.state ⟶ next) × ((next ≡ revoked) ⊎ (at < p.expires))

goes :
    (p : PairRow) (at : ℕ) {s t next : PairState}
    → s ⟶ t
    → (p.state ≡ s) × (next ≡ t) × ((next ≡ revoked) ⊎ (at < p.expires))
    → Goes p at next
goes p at edge (from, to, live) = (rw (from, to) edge, live)

-- An action that is allowed follows an edge, and only a revocation works on an expired pair.
next_state-Goes :
    (service : Service) (db : Db) (device_id : String) (p : PairRow) (act : PairAction)
    (fingerprint : String) (now : ℕ) {next : PairState}
    → next_state service db device_id p act fingerprint now ≡ ok next
    → Goes p (unix now) next
unfolding next_state
next_state-Goes service db device_id p approve fingerprint now h =
    goes p (unix now) approves (ground arith)
next_state-Goes service db device_id p reject_invite fingerprint now h =
    goes p (unix now) rejects (ground arith)
next_state-Goes service db device_id p confirm fingerprint now h =
    goes p (unix now) confirms (ground arith)
next_state-Goes service db device_id p revoke fingerprint now h =
    goes p (unix now) (closes {s = active}) (ground arith)

-- The pair that `get_pair` returns is a row of the table.
pub get_pair-find :
    (db : Db) (device_id pair_id : String) {p : PairRow}
    → get_pair db device_id pair_id ≡ ok p
    → find (λ q. takes_part device_id q && q.id =s= pair_id) db.pairs ≡ some p
unfolding get_pair list_pairs
get_pair-find db device_id pair_id {p} h =
    ground (arith, find-select (λ q. q.id =s= pair_id) (takes_part device_id) db.pairs)

pub act_on_pair-PairMove :
    (service : Service) (device_id pair_id action fingerprint : String) (now : ℕ) (db : Db)
    → PairMove
        (unix now)
        db
        (commit db (act_on_pair service device_id pair_id action fingerprint now db))
unfolding act_on_pair
act_on_pair-PairMove service device_id pair_id action fingerprint now db =
    commit-bind (PairMove (unix now) db) db (get_pair db device_id pair_id) _ (PairMove.keep refl)
      λ p found.
        commit-then (PairMove (unix now) db) db (authorize_pair db p) _ (PairMove.keep refl) λ _ _.
          commit-bind (PairMove (unix now) db) db (or_fail (pair_action action) invalid_pair_action)
            _ (PairMove.keep refl)
            λ act _.
              commit-bind (PairMove (unix now) db) db
                (next_state service db device_id p act fingerprint now) _ (PairMove.keep refl)
                λ next allowed.
                  commit-reject (PairMove (unix now) db) db
                    (end_revoked db p || not (count (same_revision p) db.pairs == 1))
                    pair_state_conflict _ (PairMove.keep refl)
                    λ one.
                      commit-bind (PairMove (unix now) db) db
                        (get_pair
                          (record db { pairs = update (same_revision p) (advance next) db.pairs })
                          device_id pair_id)
                        _ (PairMove.keep refl)
                        λ updated _.
                          let (edge, live) =
                            next_state-Goes service db device_id p act fingerprint now allowed in
                          commit-ok (PairMove (unix now) db) db _ _ (
                            change p next _ edge live (get_pair-find db device_id pair_id found)
                              (ground arith) refl)
