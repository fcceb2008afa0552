-- ===== src/Store/History/Lifecycle.antt =====
-- What becomes of a pair over a history: its ends never change, its state follows the machine,
-- and its revision counts the changes.
use dshker_server.Prelude.{
  Bool, Bool-cases, List, Option, [], arith, inl, inr, none, refl, some, some_inj, suc, true,
  update, zero, ℕ, ◌++◌, ◌∙◌, ◌∷◌, ◌≡◌, ◌≤◌, ◌⊎◌,
}
use dshker_server.Protocol.Ids.{unix}
use dshker_server.Protocol.Service.{Service}
use dshker_server.Store.History.{Call, run, step}
use dshker_server.Store.History.Machine.{
  PairMove, PairMoves, approves, change, close, closes, confirms, done, join, more, rejects, ◌⟶◌,
}
use dshker_server.Store.History.Pairs.{step-PairMoves}
use dshker_server.Store.PairActions.{advance, same_revision}
use dshker_server.Store.Schema.{Db, PairRow, PairState, rejected, revoked}

-- The states that can follow a state, in any number of steps.
infix 40 ◌⟶*◌
pub data ◌⟶*◌ : PairState → PairState → Type 0 where
  here : {s : PairState} → s ⟶* s
  then : {s t u : PairState} → s ⟶* t → t ⟶ u → s ⟶* u

-- A row and what it has become: the same pair, further along, with a revision that counts.
pub record IsLater (p q : PairRow) : Type 0 where
  pub same_id : q.id ≡ p.id
  pub same_network : q.network_id ≡ p.network_id
  pub same_initiator : q.initiator ≡ p.initiator
  pub same_target : q.target ≡ p.target
  pub same_expiry : q.expires ≡ p.expires
  pub path : p.state ⟶* q.state
  pub counted : p.revision ≤ q.revision
  -- The revision stands still only if the state does.
  pub unchanged : q.revision ≡ p.revision → q.state ≡ p.state

-- Row by row: every pair is still there, and new ones stand behind.
abbrev pub Evolves : List PairRow → List PairRow → Type 0
Evolves [] qs = Unit {0}
Evolves (p ∷ ps) [] = ⊥
Evolves (p ∷ ps) (q ∷ qs) = IsLater p q × Evolves ps qs

IsLater-refl : (p : PairRow) → IsLater p p
IsLater-refl p = record {
  same_id = refl;
  same_network = refl;
  same_initiator = refl;
  same_target = refl;
  same_expiry = refl;
  path = here;
  counted = omega arith;
  unchanged = λ _. refl;
}

⟶*-trans : {s t u : PairState} → s ⟶* t → t ⟶* u → s ⟶* u
⟶*-trans r here = r
⟶*-trans r (then q e) = then (⟶*-trans r q) e

IsLater-trans : (p q r : PairRow) → IsLater p q → IsLater q r → IsLater p r
IsLater-trans p q r h k = record {
  same_id = k.same_id ∙ h.same_id;
  same_network = k.same_network ∙ h.same_network;
  same_initiator = k.same_initiator ∙ h.same_initiator;
  same_target = k.same_target ∙ h.same_target;
  same_expiry = k.same_expiry ∙ h.same_expiry;
  path = ⟶*-trans h.path k.path;
  counted = omega (arith, h.counted, k.counted);
  unchanged = λ e.
      k.unchanged (omega (arith, h.counted, k.counted))
      ∙ h.unchanged (omega (arith, h.counted, k.counted));
}

Evolves-refl : (ps : List PairRow) → Evolves ps ps
Evolves-refl [] = tt
Evolves-refl (p ∷ ps) = (IsLater-refl p, Evolves-refl ps)

Evolves-trans : (ps qs rs : List PairRow) → Evolves ps qs → Evolves qs rs → Evolves ps rs
Evolves-trans [] qs rs h k = tt
Evolves-trans (p ∷ ps) [] rs h k = absurd h
Evolves-trans (p ∷ ps) (q ∷ qs) [] h k = absurd k
Evolves-trans (p ∷ ps) (q ∷ qs) (r ∷ rs) h k =
    (IsLater-trans p q r h.0 k.0, Evolves-trans ps qs rs h.1 k.1)

Evolves-append : (ps qs : List PairRow) → Evolves ps (ps ++ qs)
Evolves-append [] qs = tt
Evolves-append (p ∷ ps) qs = (IsLater-refl p, Evolves-append ps qs)

-- One step of one row.
IsLater-advance : (p : PairRow) (next : PairState) → p.state ⟶ next → IsLater p (advance next p)
IsLater-advance p next e = record {
  same_id = refl;
  same_network = refl;
  same_initiator = refl;
  same_target = refl;
  same_expiry = refl;
  path = then here e;
  counted = omega arith;
  unchanged = λ h. absurd (omega arith);
}

Evolves-update :
    (q : PairRow → Bool) (next : PairState) (ps : List PairRow)
    → ((p : PairRow) → q p ≡ true → p.state ⟶ next)
    → Evolves ps (update q (advance next) ps)
Evolves-update q next [] h = tt
Evolves-update q next (p ∷ ps) h = elim (Bool-cases (q p)) [
  | inl e ↦ (rw e (IsLater-advance p next (h p e)), Evolves-update q next ps h)
  | inr e ↦ (rw e (IsLater-refl p), Evolves-update q next ps h)
]

same_state : (p x : PairRow) → same_revision p x ≡ true → x.state ≡ p.state
same_state p x h = ground arith

PairMove-Evolves : (at : ℕ) (db db' : Db) → PairMove at db db' → Evolves db.pairs db'.pairs
PairMove-Evolves at db db' (PairMove.keep e) = rw e (Evolves-refl db.pairs)
PairMove-Evolves at db db' (join p initial first fresh free e) =
    rw e (Evolves-append db.pairs (p ∷ []))
PairMove-Evolves at db db' (close q e) = rw e (Evolves-update q revoked db.pairs (λ p _. closes))
PairMove-Evolves at db db' (change p next r edge live row one e) =
    rw e (Evolves-update (same_revision p) next db.pairs (λ x h. rw (same_state p x h) edge))

PairMoves-Evolves : (at : ℕ) (db db' : Db) → PairMoves at db db' → Evolves db.pairs db'.pairs
PairMoves-Evolves at db db' (done e) = rw e (Evolves-refl db.pairs)
PairMoves-Evolves at db db' (more {db' = mid} ms m) =
    Evolves-trans db.pairs mid.pairs db'.pairs (PairMoves-Evolves at db mid ms)
      (PairMove-Evolves at mid db' m)

-- Over any history no pair is lost or exchanged: each row keeps its place, identifier, network,
-- ends and expiry, its state moves along the machine, its revision never falls, and it stands
-- still only if the state does.
pub run-Evolves :
    (service : Service) (db : Db) (cs : List (ℕ × Call))
    → Evolves db.pairs (run service db cs).pairs
unfolding run
run-Evolves service db [] = Evolves-refl db.pairs
run-Evolves service db ((now, c) ∷ cs) =
    Evolves-trans db.pairs (step service db (now, c)).pairs
      (run service (step service db (now, c)) cs).pairs
      (PairMoves-Evolves (unix now) db (step service db (now, c)) (step-PairMoves service db now c))
      (run-Evolves service (step service db (now, c)) cs)

abbrev pub IsClosed : PairState → Type 0
IsClosed s = (s ≡ rejected) ⊎ (s ≡ revoked)

IsClosed-step : {s t : PairState} → s ⟶ t → IsClosed s → IsClosed t
IsClosed-step approves c = ground arith
IsClosed-step rejects c = inl refl
IsClosed-step confirms c = ground arith
IsClosed-step closes c = inr refl

-- A state that a rejected or revoked pair can come to is again one of the two.
pub IsClosed-stays : {s t : PairState} → s ⟶* t → IsClosed s → IsClosed t
IsClosed-stays here c = c
IsClosed-stays (then r e) c = IsClosed-step e (IsClosed-stays r c)

-- The row at a position.
abbrev pub pair_at : ℕ → List PairRow → Option PairRow
pair_at n [] = none
pair_at zero (p ∷ ps) = some p
pair_at (suc n) (p ∷ ps) = pair_at n ps

Evolves-pair_at :
    (n : ℕ) (ps qs : List PairRow) {p : PairRow}
    → Evolves ps qs
    → pair_at n ps ≡ some p
    → (q : PairRow) × (pair_at n qs ≡ some q) × IsLater p q
Evolves-pair_at n [] qs h e = cc
Evolves-pair_at n (p ∷ ps) [] h e = absurd h
Evolves-pair_at zero (p ∷ ps) (q ∷ qs) h e = (q, refl, rw (← some_inj e) h.0)
Evolves-pair_at (suc n) (p ∷ ps) (q ∷ qs) h e = Evolves-pair_at n ps qs h.1 e

-- A pair that is rejected or revoked stays so: after any calls its row is still there, with the
-- same identifier, network and ends, and is rejected or revoked.
pub run-IsClosed :
    (service : Service) (db : Db) (cs : List (ℕ × Call)) (n : ℕ) (p : PairRow)
    → pair_at n db.pairs ≡ some p
    → IsClosed p.state
    → (q : PairRow) × (pair_at n (run service db cs).pairs ≡ some q)
      × (q.id ≡ p.id)
      × (q.network_id ≡ p.network_id)
      × (q.initiator ≡ p.initiator)
      × (q.target ≡ p.target)
      × IsClosed q.state
run-IsClosed service db cs n p e c =
    let (q, there, later) =
      Evolves-pair_at n db.pairs (run service db cs).pairs (run-Evolves service db cs) e in
    (
      q,
      there,
      later.same_id,
      later.same_network,
      later.same_initiator,
      later.same_target,
      IsClosed-stays later.path c,
    )
