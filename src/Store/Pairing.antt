-- ===== src/Store/Pairing.antt =====
-- internal/coordinator/pairing.go: shares, invitations, adoption and the life of a pair.
use dshker_server.Prelude.{
  Bool, List, Result, String, [], any, binding_unauthorized, count, device_unauthorized, err, false,
  find, invalid_pairing_code, leb, ltb, none, not, ok, pairing_busy, reject, some, sql_error, true,
  update, ℕ, ◌&&◌, ◌++◌, ◌+◌, ◌==◌, ◌=s=◌, ◌>>=◌, ◌>>◌, ◌||◌, ◌∷◌,
}
use dshker_server.Protocol.Ids.{Bytes, unix}
use dshker_server.Protocol.Service.{Scalar, Service, num, text}
use dshker_server.Store.Bindings.{binding_owner, spend_share}
use dshker_server.Store.Schema.{
  Db, DeviceRow, PairRow, PairState, ShareRow, Tx, active, approved, invited, user_enabled,
}

pub record Device : Type 0 where
  pub id : String
  pub user_id : String
  pub public_key : Bytes
  pub name : String
  pub certificate : Bytes

abbrev pub to_device : DeviceRow → Device
to_device d = record {
  id = d.id;
  user_id = d.user_id;
  public_key = d.public_key;
  name = d.name;
  certificate = d.certificate;
}

-- `Store.Device` (enrollment.go): a device that is not revoked, of an enabled account.
unfoldable pub device : Db → String → Result Device
device db id =
    elim (find (λ d. d.id =s= id && not d.revoked && user_enabled db d.user_id) db.devices) [
      | none ↦ err device_unauthorized
      | some d ↦ ok (to_device d)
    ]

pub record Share : Type 0 where
  pub version : ℕ
  pub service_id : String
  pub network_id : String
  pub device_id : String
  pub fingerprint : String
  pub nonce : String
  pub expires_at : ℕ
  pub signature : String

abbrev pub protocol_version : ℕ
protocol_version = 1

-- `Share.SigningBytes`
unfoldable pub share_fields : Share → List Scalar
share_fields s =
    text "dshker.pair-share.v1"
    ∷ num s.version
    ∷ text s.service_id
    ∷ text s.network_id
    ∷ text s.device_id
    ∷ text s.fingerprint
    ∷ text s.nonce
    ∷ num s.expires_at
    ∷ []

abbrev pub is_active_state : PairState → Bool
is_active_state active = true
is_active_state _ = false

-- `state IN ('invited','approved')`
abbrev pub is_pending_state : PairState → Bool
is_pending_state invited = true
is_pending_state approved = true
is_pending_state _ = false

-- A pair that blocks another one between its devices: active, or still waiting and not expired.
abbrev pub is_live_at : ℕ → PairRow → Bool
is_live_at at p = is_active_state p.state || (is_pending_state p.state && ltb at p.expires)

-- `(initiator=? AND target=?) OR (initiator=? AND target=?)`
abbrev pub links : String → String → PairRow → Bool
links a b p = (p.initiator =s= a && p.target =s= b) || (p.initiator =s= b && p.target =s= a)

abbrev pub blocks : String → String → String → ℕ → PairRow → Bool
blocks network_id a b at p = p.network_id =s= network_id && links a b p && is_live_at at p

abbrev pub five_minutes : ℕ
five_minutes = 300_000_000_000

-- `INSERT INTO pairs`: the primary key refuses a second row of the id.
abbrev pub insert_pair : PairRow → Db → Tx PairRow
insert_pair pair db = do
  reject (any (λ p. p.id =s= pair.id) db.pairs) sql_error
  ok (pair, record db { pairs = db.pairs ++ pair ∷ [] })

-- Both devices are bound to the network, and to the same owner's.
abbrev pub same_owner : Result String → Result String → Result (Unit {0})
same_owner owner (err _) = err binding_unauthorized
same_owner owner (ok other) = owner >>= λ mine. reject (not (mine =s= other)) binding_unauthorized

abbrev pub matching_share : Share → ℕ → ShareRow → Bool
matching_share share at s =
    s.nonce =s= share.nonce
    && s.device_id =s= share.device_id
    && s.network_id =s= share.network_id
    && s.expires == share.expires_at
    && ltb at s.expires
    && not s.used

module _ (service : Service) where
  -- `nonce` is what `protocol.NewID` mints.
  unfoldable pub share : String → String → String → ℕ → Db → Tx Share
  share nonce id network_id now db = do
    owner ← device db id
    let unsigned : Share = record {
      version = protocol_version;
      service_id = service.service_id;
      network_id = network_id;
      device_id = id;
      fingerprint = service.key_id owner.public_key;
      nonce = nonce;
      expires_at = unix (now + five_minutes);
      signature = "";
    }
    binding_owner db network_id id
    reject (any (λ (s : ShareRow). s.nonce =s= nonce) db.shares) sql_error
    let row : ShareRow = record {
      nonce = nonce;
      device_id = id;
      network_id = network_id;
      expires = unix (now + five_minutes);
      used = false;
    }
    ok (
      record unsigned { signature = service.sign (share_fields unsigned) },
      record db { shares = db.shares ++ row ∷ [] },
    )

  -- What `Invite` checks of the code itself.
  unfoldable pub share_valid : String → Device → Share → ℕ → Bool
  share_valid sender target share now =
      share.version == protocol_version
      && share.service_id =s= service.service_id
      && not (share.device_id =s= sender)
      && share.fingerprint =s= service.key_id target.public_key
      && ltb (unix now) share.expires_at
      && leb share.expires_at (unix (now + five_minutes))
      && service.verify service.public_key (share_fields share) share.signature

  unfoldable pub invite : String → String → Share → ℕ → Db → Tx PairRow
  invite id sender share now db = do
    device db sender
    target ← device db share.device_id
    reject (not (share_valid sender target share now)) invalid_pairing_code
    owner ← binding_owner db share.network_id sender
    same_owner (ok owner) (binding_owner db share.network_id target.id)
    reject (not (count (blocks share.network_id sender target.id (unix now)) db.pairs == 0))
        pairing_busy
    reject (not (count (matching_share share (unix now)) db.shares == 1)) invalid_pairing_code
    insert_pair
        (record {
          id = id;
          network_id = share.network_id;
          initiator = sender;
          target = target.id;
          state = invited;
          expires = unix (now + five_minutes);
          revision = 1;
        })
        (record db { shares = update (matching_share share (unix now)) spend_share db.shares })

unfoldable pub adopt : String → String → String → String → ℕ → Db → Tx PairRow
adopt id initiator target network_id now db = do
  owner ← binding_owner db network_id initiator
  same_owner (ok owner) (binding_owner db network_id target)
  reject (not (count (blocks network_id initiator target (unix now)) db.pairs == 0)) pairing_busy
  insert_pair
      (record {
        id = id;
        network_id = network_id;
        initiator = initiator;
        target = target;
        state = active;
        expires = unix (now + five_minutes);
        revision = 1;
      })
      db
