-- ===== src/Store/Bindings.antt =====
-- internal/coordinator/networks.go: which devices are bound to a network, and their removal.
pub mod Removal
use dshker_server.Prelude.{
  Bool, List, Result, String, [], any, binding_unauthorized, count, device_unauthorized, err, false,
  find, if◌then◌else◌, map, none, not, ok, pair_unauthorized, reject, select, some, true, update, ℕ,
  ◌&&◌, ◌++◌, ◌+◌, ◌==◌, ◌=s=◌, ◌>>=◌, ◌>>◌, ◌||◌, ◌∷◌,
}
use dshker_server.Prelude.Text.{◌+s+◌}
use dshker_server.Protocol.Ids.{unix}
use dshker_server.Store.Networks.{binding_fits_capacity, log, network_owned, require_capacity}
use dshker_server.Store.Schema.{
  BindingRow, Db, DeviceRow, NetworkRow, PairRow, PairState, ShareRow, TokenRow, Tx, active,
  approved, invited, rejected, revoked, user_enabled,
}

-- `deviceLinkedTo`: a machine may report to several accounts.
unfoldable pub device_linked_to : Db → String → String → Bool
device_linked_to db device_id user_id =
    any (λ du. du.device_id =s= device_id && du.user_id =s= user_id && user_enabled db user_id)
      db.device_users

abbrev pub is_binding : String → String → BindingRow → Bool
is_binding network_id device_id b = b.network_id =s= network_id && b.device_id =s= device_id

abbrev pub is_bound : Db → String → String → Bool
is_bound db network_id device_id =
    any (λ b. is_binding network_id device_id b && b.active) db.bindings

abbrev pub device_live : Db → String → Bool
device_live db device_id = any (λ d. d.id =s= device_id && not d.revoked) db.devices

-- The owner of the network, where the device is bound to it and linked to its owner.
unfoldable pub binding_owner : Db → String → String → Result String
binding_owner db network_id device_id =
    if is_bound db network_id device_id && device_live db device_id
    then elim (find
        (λ n.
          n.id =s= network_id
          && not n.deleted
          && user_enabled db n.user_id
          && any (λ du. du.device_id =s= device_id && du.user_id =s= n.user_id) db.device_users)
        db.networks) [ none ↦ err binding_unauthorized | some n ↦ ok n.user_id ]
    else err binding_unauthorized

abbrev pub set_active : Bool → BindingRow → BindingRow
set_active on b = record b { active = on }

-- `INSERT … ON CONFLICT(network_id,device_id) DO UPDATE SET active=1`
unfoldable pub bind_row : String → String → List BindingRow → List BindingRow
bind_row network_id device_id rows =
    if any (is_binding network_id device_id) rows
    then update (is_binding network_id device_id) (set_active true) rows
    else rows ++ record { network_id = network_id; device_id = device_id; active = true } ∷ []

abbrev pub bind : String → String → Db → Db
bind network_id device_id db = record db { bindings = bind_row network_id device_id db.bindings }

-- `SELECT user_id FROM devices WHERE id=? AND revoked=0`, compared with the caller.
abbrev pub device_owned : Db → String → String → Result (Unit {0})
device_owned db user_id device_id =
    elim (find (λ d. d.id =s= device_id && not d.revoked) db.devices) [
      | none ↦ err device_unauthorized
      | some d ↦ if d.user_id =s= user_id then ok tt else err device_unauthorized
    ]

unfoldable pub bind_device : String → String → String → Db → Tx (Unit {0})
bind_device user_id network_id device_id db = do
  network_owned db user_id network_id
  device_owned db user_id device_id
  if is_bound db network_id device_id
      then ok tt
      else require_capacity (binding_fits_capacity db network_id)
  ok (tt, bind network_id device_id db)

-- `state IN ('invited','approved','active')`
abbrev pub is_open : PairState → Bool
is_open invited = true
is_open approved = true
is_open active = true
is_open rejected = false
is_open revoked = false

-- `SET state='revoked', revision=revision+1`
abbrev pub revoke_row : PairRow → PairRow
revoke_row p = record p { state = revoked; revision = p.revision + 1 }

abbrev pub spend_token : TokenRow → TokenRow
spend_token t = record t { used = true }

abbrev pub spend_share : ShareRow → ShareRow
spend_share s = record s { used = true }

abbrev pub pair_touches : String → String → PairRow → Bool
pair_touches network_id device_id p =
    p.network_id =s= network_id
    && (p.initiator =s= device_id || p.target =s= device_id)
    && is_open p.state

unfoldable pub unbind_device : String → String → String → ℕ → Db → Tx (Unit {0})
unbind_device user_id network_id device_id now db = do
  network_owned db user_id network_id
  binding_owner db network_id device_id
  ok (
    tt,
    log "device-unbound" (network_id +s+ ":" +s+ device_id) (unix now) (record db {
      bindings = update (is_binding network_id device_id) (set_active false) db.bindings;
      pairs = update (pair_touches network_id device_id) revoke_row db.pairs;
      shares =
          update (λ s. s.network_id =s= network_id && s.device_id =s= device_id) spend_share
            db.shares;
    }),
  )

abbrev pub delete_row : NetworkRow → NetworkRow
delete_row n = record n { deleted = true }

abbrev pub in_network : String → PairRow → Bool
in_network network_id p = p.network_id =s= network_id && is_open p.state

-- The five UPDATEs of `DeleteNetwork`, in one transaction.
unfoldable pub delete_network : String → String → ℕ → Db → Tx (Unit {0})
delete_network user_id id now db = do
  network_owned db user_id id
  ok (
    tt,
    log "network-deleted" id (unix now) (record db {
      networks = update (λ n. n.id =s= id) delete_row db.networks;
      bindings = update (λ b. b.network_id =s= id) (set_active false) db.bindings;
      tokens = update (λ t. t.network_id =s= id) spend_token db.tokens;
      shares = update (λ s. s.network_id =s= id) spend_share db.shares;
      pairs = update (in_network id) revoke_row db.pairs;
    }),
  )

abbrev pub is_open_pair : String → String → PairRow → Bool
is_open_pair network_id pair_id p =
    p.id =s= pair_id && p.network_id =s= network_id && is_open p.state

unfoldable pub delete_pair : String → String → String → ℕ → Db → Tx (Unit {0})
delete_pair user_id network_id pair_id now db = do
  network_owned db user_id network_id
  reject (not (count (is_open_pair network_id pair_id) db.pairs == 1)) pair_unauthorized
  ok (
    tt,
    log "pair-deleted" pair_id (unix now)
        (record db { pairs = update (is_open_pair network_id pair_id) revoke_row db.pairs }),
  )

-- A row of the device directory; the certificate stays out of it. `presence` is filled in by the API.
pub record DeviceEntry : Type 0 where
  pub device_id : String
  pub user_id : String
  pub name : String
  pub presence : String
  pub last_seen : ℕ
  pub version : String
  pub platform : String
  pub architecture : String

abbrev pub to_entry : DeviceRow → DeviceEntry
to_entry d = record {
  device_id = d.id;
  user_id = d.user_id;
  name = d.name;
  presence = "";
  last_seen = d.last_seen;
  version = d.version;
  platform = d.platform;
  architecture = d.architecture;
}

unfoldable pub network_devices : String → String → Db → Result (List DeviceEntry)
network_devices user_id network_id db = do
  network_owned db user_id network_id
  ok (
      map to_entry (
        select
          (λ d.
            is_bound db network_id d.id
            && any (λ du. du.device_id =s= d.id && du.user_id =s= user_id) db.device_users
            && not d.revoked
            && any (λ n. n.id =s= network_id && not n.deleted) db.networks
            && user_enabled db d.user_id)
          db.devices))

unfoldable pub user_devices : String → Db → List DeviceEntry
user_devices user_id db = map to_entry (
    select
      (λ d.
        any (λ du. du.device_id =s= d.id && du.user_id =s= user_id && user_enabled db du.user_id)
          db.device_users
        && not d.revoked)
      db.devices)
