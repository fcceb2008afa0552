-- ===== src/Store/History/Machine.antt =====
-- The state machine of a pair, and what a call may do to the table of pairs.
use dshker_server.Prelude.{
  Bool, String, [], any, count, false, find, some, suc, update, ℕ, ◌++◌, ◌<◌, ◌=s=◌, ◌∷◌, ◌≡◌, ◌⊎◌,
}
use dshker_server.Store.Bindings.{revoke_row}
use dshker_server.Store.PairActions.{advance, same_revision}
use dshker_server.Store.Pairing.{blocks}
use dshker_server.Store.Schema.{
  Db, PairRow, PairState, active, approved, invited, rejected, revoked,
}

-- The changes of state that a pair can make.
infix 40 ◌⟶◌
pub data ◌⟶◌ : PairState → PairState → Type 0 where
  approves : invited ⟶ approved
  rejects : invited ⟶ rejected
  confirms : approved ⟶ active
  -- By an end of the pair, the network's owner, or the removal of a network, a device or a user.
  closes : {s : PairState} → s ⟶ revoked

-- The state in which a pair comes into being.
pub data IsInitial : PairState → Type 0 where
  by_invitation : IsInitial invited
  by_adoption : IsInitial active

-- What one transaction may do to the pairs, at a time: nothing, one new pair that no live pair
-- blocks, revocations, or the change of one pair's state.
pub data PairMove (at : ℕ) (db db' : Db) : Type 0 where
  keep : db'.pairs ≡ db.pairs → PairMove at db db'
  join :
      (p : PairRow)
      → IsInitial p.state
      → p.revision ≡ 1
      → any (λ q. q.id =s= p.id) db.pairs ≡ false
      → count (blocks p.network_id p.initiator p.target at) db.pairs ≡ 0
      → db'.pairs ≡ db.pairs ++ p ∷ []
      → PairMove at db db'
  close : (q : PairRow → Bool) → db'.pairs ≡ update q revoke_row db.pairs → PairMove at db db'
  change :
      (p : PairRow) (next : PairState) (r : PairRow → Bool)
      → p.state ⟶ next
      → (next ≡ revoked) ⊎ (at < p.expires)
      → find r db.pairs ≡ some p
      → count (same_revision p) db.pairs ≡ 1
      → db'.pairs ≡ update (same_revision p) (advance next) db.pairs
      → PairMove at db db'

-- What a round of an adoption may do: nothing, or one new active pair that the device initiates and
-- no live pair blocks.
pub data Adoption (me : String) (at : ℕ) (db db' : Db) : Type 0 where
  passed_over : db'.pairs ≡ db.pairs → Adoption me at db db'
  adopts :
      (p : PairRow)
      → p.initiator ≡ me
      → p.state ≡ active
      → p.revision ≡ 1
      → any (λ q. q.id =s= p.id) db.pairs ≡ false
      → count (blocks p.network_id p.initiator p.target at) db.pairs ≡ 0
      → db'.pairs ≡ db.pairs ++ p ∷ []
      → Adoption me at db db'

-- As many rounds as there are peers.
pub data Adoptions (me : String) (at : ℕ) (db : Db) : ℕ → Db → Type 0 where
  no_round : Adoptions me at db 0 db
  round :
      {n : ℕ} {db' db'' : Db}
      → Adoptions me at db n db'
      → Adoption me at db' db''
      → Adoptions me at db (suc n) db''

-- Moves one after the other.
pub data PairMoves (at : ℕ) (db : Db) : Db → Type 0 where
  done : {db' : Db} → db'.pairs ≡ db.pairs → PairMoves at db db'
  more : {db' db'' : Db} → PairMoves at db db' → PairMove at db' db'' → PairMoves at db db''
