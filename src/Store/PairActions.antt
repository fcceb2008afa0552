-- ===== src/Store/PairActions.antt =====
-- internal/coordinator/pairing.go: adoption of a whole network, and the actions on a pair.
pub mod Rights
use Prim.Native.String.{compare as compare_text}
use Prim.Native.Nat.{Ordering}
use dshker_server.Prelude.{
  Bool, List, Option, Result, String, [], any, commit, count, err, find, identity_mismatch,
  if◌then◌else◌, invalid_pair_action, leb, none, not, ok, or_fail, pair_state_conflict,
  pair_unauthorized, pairing_expired, reject, select, some, suc, update, ℕ, ◌&&◌, ◌+◌, ◌==◌, ◌=s=◌,
  ◌>>=◌, ◌>>◌, ◌||◌, ◌∷◌,
}
use dshker_server.Protocol.Ids.{unix}
use dshker_server.Protocol.Service.{Service}
use dshker_server.Store.Bindings.{binding_owner}
use dshker_server.Store.Pairing.{Device, adopt, device, same_owner}
use dshker_server.Store.Schema.{
  BindingRow, Db, DeviceRow, NetworkRow, PairRow, PairState, Tx, active, approved, invited,
  rejected, revoked, user_enabled,
}

-- A row of AdoptNetwork's query: `(b.network_id, other.device_id)`.
abbrev pub Peer : Type 0
Peer = String × String

abbrev pub peer_before : Peer → Peer → Ordering
peer_before (n, d) (m, e) = elim (compare_text n m) [
  | Ordering.lt ↦ Ordering.lt
  | Ordering.gt ↦ Ordering.gt
  | Ordering.eq ↦ compare_text d e
]

-- `SELECT DISTINCT … ORDER BY b.network_id, other.device_id`
unfoldable pub insert_peer : Peer → List Peer → List Peer
insert_peer x [] = x ∷ []
insert_peer x (y ∷ ys) =
    let rest = insert_peer x ys in
    elim (peer_before x y) [
      | Ordering.lt ↦ x ∷ y ∷ ys
      | Ordering.eq ↦ y ∷ ys
      | Ordering.gt ↦ y ∷ rest
    ]

-- A network that the device may adopt: bound to it, live, and owned by the device's account.
abbrev pub adoptable : Db → Device → BindingRow → Bool
adoptable db me b =
    b.device_id =s= me.id
    && b.active
    && any
        (λ (n : NetworkRow).
          n.id =s= b.network_id
          && not n.deleted
          && user_enabled db n.user_id
          && n.user_id =s= me.user_id)
        db.networks

abbrev pub is_peer : Db → Device → BindingRow → Bool
is_peer db me other =
    not (other.device_id =s= me.id)
    && other.active
    && any (λ b. b.network_id =s= other.network_id && adoptable db me b) db.bindings
    && any
        (λ (d : DeviceRow). d.id =s= other.device_id && d.user_id =s= me.user_id && not d.revoked)
        db.devices

unfoldable pub collect_peers : Db → Device → List BindingRow → List Peer
collect_peers db me [] = []
collect_peers db me (b ∷ bs) =
    let rest = collect_peers db me bs in
    if is_peer db me b then insert_peer (b.network_id, b.device_id) rest else rest

abbrev pub adopted : Result (PairRow × Db) → List PairRow → List PairRow
adopted (ok (pair, _)) rest = pair ∷ rest
adopted (err _) rest = rest

-- The loop: a peer that cannot be paired is passed over. `ids n` is the id minted for the n-th.
unfoldable pub adopt_all : (ℕ → String) → ℕ → String → List Peer → ℕ → Db → List PairRow × Db
adopt_all ids n me [] now db = ([], db)
adopt_all ids n me ((network_id, other) ∷ peers) now db =
    let attempt = adopt (ids n) me other network_id now db in
    let (rest, final) = adopt_all ids (suc n) me peers now (commit db attempt) in
    (adopted attempt rest, final)

unfoldable pub adopt_network : (ℕ → String) → String → ℕ → Db → Tx (List PairRow)
adopt_network ids device_id now db = do
  me ← device db device_id
  ok (adopt_all ids 0 device_id (collect_peers db me db.bindings) now db)

abbrev pub takes_part : String → PairRow → Bool
takes_part device_id p = p.initiator =s= device_id || p.target =s= device_id

unfoldable pub list_pairs : Db → String → Result (List PairRow)
list_pairs db device_id = do device db device_id; ok (select (takes_part device_id) db.pairs)

-- `Store.Pair`
unfoldable pub get_pair : Db → String → String → Result PairRow
get_pair db device_id pair_id = do
  pairs ← list_pairs db device_id
  or_fail (find (λ p. p.id =s= pair_id) pairs) pair_unauthorized

unfoldable pub authorize_pair : Db → PairRow → Result (Unit {0})
authorize_pair db pair = do
  owner ← binding_owner db pair.network_id pair.initiator
  same_owner (ok owner) (binding_owner db pair.network_id pair.target)

pub data PairAction : Type 0 where
  approve reject_invite confirm revoke : PairAction

-- The `switch action` of ActOnPair.
unfoldable pub pair_action : String → Option PairAction
pair_action action =
    if action =s= "approve"
    then some approve
    else if action =s= "reject"
    then some reject_invite
    else if action =s= "confirm"
    then some confirm
    else if action =s= "revoke"
    then some revoke
    else none

abbrev pub state_code : PairState → ℕ
state_code invited = 0
state_code approved = 1
state_code active = 2
state_code rejected = 3
state_code revoked = 4

infix 50 ◌=st=◌
abbrev pub ◌=st=◌ : PairState → PairState → Bool
a =st= b = state_code a == state_code b

abbrev pub not_expired : PairRow → ℕ → Result (Unit {0})
not_expired pair now = reject (leb pair.expires (unix now)) pairing_expired

-- The rows that the guarded UPDATE changes.
abbrev pub same_revision : PairRow → PairRow → Bool
same_revision pair p = p.id =s= pair.id && p.state =st= pair.state && p.revision == pair.revision

abbrev pub end_revoked : Db → PairRow → Bool
end_revoked db pair =
    any (λ d. (d.id =s= pair.initiator || d.id =s= pair.target) && d.revoked) db.devices

abbrev pub advance : PairState → PairRow → PairRow
advance next p = record p { state = next; revision = p.revision + 1 }

module _ (service : Service) where
  -- The state that an action leads to, with its guards.
  unfoldable pub next_state : Db → String → PairRow → PairAction → String → ℕ → Result PairState
  next_state db device_id pair approve fingerprint now = do
    reject (not (pair.target =s= device_id && pair.state =st= invited)) pair_state_conflict
    not_expired pair now
    ok approved
  next_state db device_id pair reject_invite fingerprint now = do
    reject (not (pair.target =s= device_id && pair.state =st= invited)) pair_state_conflict
    not_expired pair now
    ok rejected
  next_state db device_id pair confirm fingerprint now = do
    target ← elim (device db pair.target) [ ok d ↦ ok d | err _ ↦ err identity_mismatch ]
    reject
        (not (
          pair.initiator =s= device_id
          && pair.state =st= approved
          && fingerprint =s= service.key_id target.public_key))
        identity_mismatch
    not_expired pair now
    ok active
  next_state db device_id pair revoke fingerprint now = do
    reject (not (pair.state =st= active)) pair_state_conflict
    ok revoked

  unfoldable pub act_on_pair : String → String → String → String → ℕ → Db → Tx PairRow
  act_on_pair device_id pair_id action fingerprint now db = do
    pair ← get_pair db device_id pair_id
    authorize_pair db pair
    chosen ← or_fail (pair_action action) invalid_pair_action
    next ← next_state db device_id pair chosen fingerprint now
    reject (end_revoked db pair || not (count (same_revision pair) db.pairs == 1))
        pair_state_conflict
    let db' = record db { pairs = update (same_revision pair) (advance next) db.pairs }
    updated ← get_pair db' device_id pair_id
    ok (updated, db')

abbrev pub shared : Db → String → String → BindingRow → Bool
shared db a b x =
    x.device_id =s= a
    && x.active
    && any (λ y. y.network_id =s= x.network_id && y.device_id =s= b && y.active) db.bindings

-- `count > 0` of the join of the two devices' active bindings.
unfoldable pub same_network : Db → String → String → Bool
same_network db a b = any (shared db a b) db.bindings

unfoldable pub shared_network_id : Db → String → String → Result String
shared_network_id db a b = elim (find (shared db a b) db.bindings) [
  | none ↦ err pair_unauthorized
  | some x ↦ ok x.network_id
]
