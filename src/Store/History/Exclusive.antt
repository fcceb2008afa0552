-- ===== src/Store/History/Exclusive.antt =====
-- Between two devices of a network there is at most one live pair, at every later time.
use dshker_server.Prelude.{
  Bool-cases, List, String, [], and_left, and_right, arith, count, count-insert_false,
  count-insert_le, count-le_of_imp, count-update_le, count-update_le_all, inl, inr, not, only_row,
  str_iff, str_refl, true, ℕ, ◌&&◌, ◌<◌, ◌==◌, ◌=s=◌, ◌||◌, ◌∷◌, ◌≡◌, ◌≤◌, ◌⊎◌,
}
use dshker_server.Protocol.Ids.{unix, unix_mono}
use dshker_server.Protocol.Service.{Service}
use dshker_server.Store.Bindings.{revoke_row}
use dshker_server.Store.History.{Call, run, step}
use dshker_server.Store.History.Machine.{
  PairMove, PairMoves, approves, change, close, closes, confirms, done, join, more, rejects, ◌⟶◌,
}
use dshker_server.Store.History.Pairs.{step-PairMoves}
use dshker_server.Store.PairActions.{advance, same_revision}
use dshker_server.Store.Pairing.{blocks, is_live_at, links}
use dshker_server.Store.Schema.{Db, PairRow, PairState, revoked}

pub record IsExclusive (at : ℕ) (db : Db) : Type 0 where
  pub one_live : (network_id a b : String) → count (blocks network_id a b at) db.pairs ≤ 1

-- A pair that is live at a time was live before.
blocks_earlier :
    (network_id a b : String) (s t : ℕ) (p : PairRow)
    → s ≤ t
    → blocks network_id a b t p ≡ true
    → blocks network_id a b s p ≡ true
blocks_earlier network_id a b s t p le h = ground arith

pub IsExclusive-later : {s t : ℕ} (db : Db) → s ≤ t → IsExclusive s db → IsExclusive t db
IsExclusive-later {s} {t} db le e = record {
  one_live = λ n a b. omega (
    arith,
    e.one_live n a b,
    count-le_of_imp (blocks n a b t) (blocks n a b s) db.pairs
        (λ p h. blocks_earlier n a b s t p le h),
  );
}

-- Whatever blocks the devices of a pair blocks every pair that links the same devices.
blocks_same :
    (network_id a b : String) (at : ℕ) (p q : PairRow)
    → blocks network_id a b at p ≡ true
    → blocks network_id a b at q ≡ true
    → blocks p.network_id p.initiator p.target at q ≡ true
blocks_same n a b at p q h k = ground (
  arith,
  str_iff p.network_id n,
  str_iff p.initiator a,
  str_iff p.initiator b,
  str_iff p.target a,
  str_iff p.target b,
)

-- A change of state makes no pair live that was not.
advance-live :
    (p x : PairRow) (next : PairState) (at : ℕ)
    → p.state ⟶ next
    → (next ≡ revoked) ⊎ (at < p.expires)
    → x.state ≡ p.state
    → x.expires ≡ p.expires
    → is_live_at at (advance next x) ≡ true
    → is_live_at at x ≡ true
advance-live p x next at approves live s e h = ground arith
advance-live p x next at rejects live s e h = ground arith
advance-live p x next at confirms live s e h = ground arith
advance-live p x next at closes live s e h = ground arith

-- So it makes no pair block that did not.
advance-blocks :
    (n a b : String) (p x : PairRow) (next : PairState) (at : ℕ)
    → p.state ⟶ next
    → (next ≡ revoked) ⊎ (at < p.expires)
    → (not (same_revision p x) || x.expires == p.expires) ≡ true
    → same_revision p x ≡ true
    → blocks n a b at (advance next x) ≡ true
    → blocks n a b at x ≡ true
advance-blocks n a b p x next at edge live only same h =
    let scope = and_left (x.network_id =s= n && links a b x) (is_live_at at (advance next x)) h in
    let alive : is_live_at at (advance next x) ≡ true =
      and_right (x.network_id =s= n && links a b x) (is_live_at at (advance next x)) h in
    rw (scope, advance-live p x next at edge live (ground arith) (ground arith) alive)

same_revision_refl : (p : PairRow) → same_revision p p ≡ true
same_revision_refl p = rw (str_refl p.id) (ground arith)

-- Each move keeps the exclusion at its time.
PairMove-IsExclusive :
    (at : ℕ) (db db' : Db) → PairMove at db db' → IsExclusive at db → IsExclusive at db'
PairMove-IsExclusive at db db' (PairMove.keep e) x = record {
  one_live = λ n a b. rw e (x.one_live n a b);
}
PairMove-IsExclusive at db db' (join p initial first fresh free e) x = record {
  one_live = λ n a b. rw e (elim (Bool-cases (blocks n a b at p)) [
    | inl on ↦ omega (
      arith,
      count-insert_le (blocks n a b at) db.pairs p,
      count-le_of_imp (blocks n a b at) (blocks p.network_id p.initiator p.target at) db.pairs
          (λ q k. blocks_same n a b at p q on k),
      free,
    )
    | inr off ↦ omega (arith, x.one_live n a b, count-insert_false (blocks n a b at) db.pairs p off)
  ]);
}
PairMove-IsExclusive at db db' (close q e) x = record {
  one_live = λ n a b. rw e (
      omega (
        arith,
        x.one_live n a b,
        count-update_le (blocks n a b at) q revoke_row db.pairs (λ p _ k. ground arith),
      ));
}
PairMove-IsExclusive at db db' (change p next r edge live found one e) x = record {
  one_live = λ n a b. rw e (
      omega (
        arith,
        x.one_live n a b,
        count-update_le_all (blocks n a b at) (same_revision p)
            (λ y. not (same_revision p y) || y.expires == p.expires) (advance next) db.pairs
            (only_row r (same_revision p) (λ y. y.expires) db.pairs (omega (arith, one)) found
              (same_revision_refl p))
            (λ y only same k. advance-blocks n a b p y next at edge live only same k),
      ));
}

PairMoves-IsExclusive :
    (at : ℕ) (db db' : Db) → PairMoves at db db' → IsExclusive at db → IsExclusive at db'
PairMoves-IsExclusive at db db' (done e) x = record { one_live = λ n a b. rw e (x.one_live n a b) }
PairMoves-IsExclusive at db db' (more {db' = mid} ms m) x =
    PairMove-IsExclusive at mid db' m (PairMoves-IsExclusive at db mid ms x)

-- A schedule whose times never go back, from a time on.
abbrev pub InOrder : ℕ → List (ℕ × Call) → Type 0
InOrder from [] = Unit {0}
InOrder from ((now, _) ∷ cs) = (from ≤ now) × InOrder now cs

abbrev pub last_time : ℕ → List (ℕ × Call) → ℕ
last_time from [] = from
last_time from ((now, _) ∷ cs) = last_time now cs

-- Over any schedule of calls in the order of time, from a store in which at most one live pair
-- links any two devices of a network, at most one does at the time of the last call: a pair is
-- live while it is active, or invited or approved and not expired.
pub run-IsExclusive :
    (service : Service) (db : Db) (from : ℕ) (cs : List (ℕ × Call))
    → InOrder from cs
    → IsExclusive (unix from) db
    → IsExclusive (unix (last_time from cs)) (run service db cs)
unfolding run
run-IsExclusive service db from [] ordered x = x
run-IsExclusive service db from ((now, c) ∷ cs) ordered x =
    run-IsExclusive service (step service db (now, c)) now cs ordered.1 (
      PairMoves-IsExclusive (unix now) db (step service db (now, c))
        (step-PairMoves service db now c) (IsExclusive-later db (unix_mono ordered.0) x))
