-- ===== src/Store/History/PairSteps/Adoptions.antt =====
-- internal/coordinator/pairing.go, `AdoptNetwork`, as rounds of moves of the pairs.
use mathlib.Core.Path.{subst}
use dshker_server.Prelude.{
  Bool-cases, List, String, [], any, arith, commit, commit-bind, commit-ok, commit-reject,
  commit-then, count, inl, inr, length, not, ok, pairing_busy, refl, sql_error, suc, ℕ, ◌+◌, ◌==◌,
  ◌=s=◌, ◌∷◌, ◌≤◌,
}
use dshker_server.Protocol.Ids.{unix}
use dshker_server.Store.Bindings.{binding_owner}
use dshker_server.Store.History.Machine.{
  Adoption, Adoptions, PairMove, PairMoves, adopts, by_adoption, done, join, more, no_round,
  passed_over, round,
}
use dshker_server.Store.PairActions.{
  Peer, adopt_all, adopt_network, collect_peers, insert_peer, is_peer,
}
use dshker_server.Store.Pairing.{Device, adopt, blocks, device, same_owner}
use dshker_server.Store.Schema.{BindingRow, Db}

adopt-Adoption :
    (id initiator target network_id : String) (now : ℕ) (db : Db)
    → Adoption initiator (unix now) db (commit db (adopt id initiator target network_id now db))
unfolding adopt
adopt-Adoption id initiator target network_id now db =
    let at = unix now in
    commit-bind (Adoption initiator at db) db (binding_owner db network_id initiator) _
      (passed_over refl)
      λ owner _.
        commit-then (Adoption initiator at db) db
          (same_owner (ok owner) (binding_owner db network_id target)) _ (passed_over refl)
          λ _ _.
            commit-reject (Adoption initiator at db) db
              (not (count (blocks network_id initiator target at) db.pairs == 0)) pairing_busy _
              (passed_over refl)
              λ free.
                commit-reject (Adoption initiator at db) db (any (λ q. q.id =s= id) db.pairs)
                  sql_error _ (passed_over refl)
                  λ fresh.
                    commit-ok (Adoption initiator at db) db _ _
                      (adopts _ refl refl refl fresh (ground arith) refl)

adopt_all-Adoptions :
    (ids : ℕ → String) (n k : ℕ) (me : String) (peers : List Peer) (now : ℕ) (first db : Db)
    → Adoptions me (unix now) first k db
    → Adoptions me (unix now) first (k + length peers) (adopt_all ids n me peers now db).1
unfolding adopt_all
adopt_all-Adoptions ids n k me [] now first db m =
    subst (λ j. Adoptions me (unix now) first j db) (omega arith) m
adopt_all-Adoptions ids n k me ((network_id, other) ∷ peers) now first db m =
    let next = commit db (adopt (ids n) me other network_id now db) in
    subst (λ j. Adoptions me (unix now) first j (adopt_all ids (suc n) me peers now next).1)
      (omega arith)
      (adopt_all-Adoptions ids (suc n) (suc k) me peers now first next
        (round m (adopt-Adoption (ids n) me other network_id now db)))

length-insert_peer :
    (x : Peer) (peers : List Peer) → length (insert_peer x peers) ≤ suc (length peers)
unfolding insert_peer
length-insert_peer x [] = omega arith
length-insert_peer x (y ∷ peers) = ground (arith, length-insert_peer x peers)

length-collect_peers :
    (db : Db) (me : Device) (rows : List BindingRow)
    → length (collect_peers db me rows) ≤ length rows
unfolding collect_peers
length-collect_peers db me [] = omega arith
length-collect_peers db me (b ∷ rows) =
    let rest = collect_peers db me rows in
    elim (Bool-cases (is_peer db me b)) [
      | inl e ↦ rw e (
          omega (
            arith,
            length-insert_peer (b.network_id, b.device_id) rest,
            length-collect_peers db me rows,
          ))
      | inr e ↦ rw e (omega (arith, length-collect_peers db me rows))
    ]

-- An adoption makes a round for each peer of the device, or, where the device is unknown, none.
pub adopt_network-Adoptions :
    (ids : ℕ → String) (me : String) (now : ℕ) (db : Db)
    → (rounds : ℕ) × (rounds ≤ length db.bindings)
      × Adoptions me (unix now) db rounds (commit db (adopt_network ids me now db))
unfolding adopt_network
adopt_network-Adoptions ids me now db =
    let Rounds : Db → Type 0 =
      λ s. (rounds : ℕ) × (rounds ≤ length db.bindings) × Adoptions me (unix now) db rounds s in
    commit-bind Rounds db (device db me) _ (0, omega arith, no_round)
      λ known _. commit-ok Rounds db _ _ (
        _,
        omega (arith, length-collect_peers db known db.bindings),
        adopt_all-Adoptions ids 0 0 me (collect_peers db known db.bindings) now db db no_round,
      )

Adoption-PairMove :
    {me : String} {at : ℕ} {db db' : Db} → Adoption me at db db' → PairMove at db db'
Adoption-PairMove (passed_over e) = PairMove.keep e
Adoption-PairMove (adopts p _ is first fresh free e) = join p (rw is by_adoption) first fresh free e

pub Adoptions-PairMoves :
    {me : String} {at : ℕ} {db : Db} {n : ℕ} {db' : Db}
    → Adoptions me at db n db'
    → PairMoves at db db'
Adoptions-PairMoves no_round = done refl
Adoptions-PairMoves (round m a) = more (Adoptions-PairMoves m) (Adoption-PairMove a)
