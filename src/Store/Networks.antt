-- ===== src/Store/Networks.antt =====
-- internal/coordinator/networks.go: private networks, their capacity and their device bindings.
use dshker_server.Prelude.{
  Bool, List, Option, Result, String, [], any, count, err, false, find, if◌then◌else◌, invalid_name,
  invalid_network_limit, leb, ltb, map, network_full, network_limit_reached, network_unauthorized,
  none, not, ok, or_fail, reject, select, some, sql_error, true, update, user_unauthorized, ℕ, ◌&&◌,
  ◌++◌, ◌==◌, ◌=s=◌, ◌>>=◌, ◌>>◌, ◌||◌, ◌∷◌,
}
use dshker_server.Prelude.Text.{itoa, ◌+s+◌}
use dshker_server.Protocol.Ids.{unix, valid_name}
use dshker_server.Store.Schema.{BindingRow, Db, NetworkRow, Tx, user_enabled}

pub record Network : Type 0 where
  pub id : String
  pub user_id : String
  pub name : String
  pub max_devices : ℕ

abbrev pub to_network : NetworkRow → Network
to_network n = record { id = n.id; user_id = n.user_id; name = n.name; max_devices = n.max_devices }

abbrev pub default_network_limit : ℕ
default_network_limit = 10

unfoldable pub valid_network_limit : ℕ → Bool
valid_network_limit limit = limit == 10 || limit == 20 || limit == 30

abbrev pub owns : Db → String → String → NetworkRow → Bool
owns db user_id id n =
    n.id =s= id && n.user_id =s= user_id && not n.deleted && user_enabled db n.user_id

unfoldable pub network_owned : Db → String → String → Result NetworkRow
network_owned db user_id id = or_fail (find (owns db user_id id) db.networks) network_unauthorized

-- One row of the audit table.
abbrev pub log : String → String → ℕ → Db → Db
log event subject at db = record db {
  audit = record { event = event; subject = subject; at = at } ∷ db.audit;
}

-- The networks that count towards a user's limit of two.
abbrev pub is_users_network : String → NetworkRow → Bool
is_users_network user_id n = n.user_id =s= user_id && not n.deleted

-- `id` is what `protocol.NewID` mints.
unfoldable pub create_network : String → String → String → Db → Tx Network
create_network id user_id name db = do
  reject (not (valid_name name)) invalid_name
  reject (leb 2 (count (is_users_network user_id) db.networks)) network_limit_reached
  reject (not (user_enabled db user_id)) user_unauthorized
  reject (any (λ n. n.id =s= id) db.networks) sql_error
  let row : NetworkRow = record {
    id = id;
    user_id = user_id;
    name = name;
    deleted = false;
    max_devices = default_network_limit;
  }
  ok (to_network row, record db { networks = db.networks ++ row ∷ [] })

unfoldable pub list_networks : String → Db → List Network
list_networks user_id db =
    map to_network
      (select (λ n. is_users_network user_id n && user_enabled db n.user_id) db.networks)

abbrev pub set_name : String → NetworkRow → NetworkRow
set_name name n = record n { name = name }

abbrev pub set_limit : ℕ → NetworkRow → NetworkRow
set_limit limit n = record n { max_devices = limit }

abbrev pub on_network : String → (NetworkRow → NetworkRow) → Db → Db
on_network id f db = record db { networks = update (λ n. n.id =s= id) f db.networks }

unfoldable pub rename_network : String → String → String → Db → Tx Network
rename_network user_id id name db = do
  reject (not (valid_name name)) invalid_name
  network ← network_owned db user_id id
  if network.name =s= name
      then ok (to_network network, db)
      else ok (to_network (set_name name network), on_network id (set_name name) db)

unfoldable pub update_network_limit : String → String → ℕ → ℕ → Db → Tx Network
update_network_limit user_id id limit now db = do
  reject (not (valid_network_limit limit)) invalid_network_limit
  network ← network_owned db user_id id
  if network.max_devices == limit
      then ok (to_network network, db)
      else ok (
        to_network (set_limit limit network),
        log "network-limit" (id +s+ ":" +s+ itoa limit) (unix now)
            (on_network id (set_limit limit) db),
      )

abbrev pub is_active_binding : String → BindingRow → Bool
is_active_binding network_id b = b.network_id =s= network_id && b.active

unfoldable pub active_binding_count : Db → String → ℕ
active_binding_count db network_id = count (is_active_binding network_id) db.bindings

-- `none` is the error of a query that finds no live network.
unfoldable pub binding_fits_capacity : Db → String → Option Bool
binding_fits_capacity db network_id =
    elim (find (λ n. n.id =s= network_id && not n.deleted) db.networks) [
      | none ↦ none
      | some n ↦ some (ltb (active_binding_count db network_id) n.max_devices)
    ]

-- What the callers make of it: an error of the query, or a full network.
abbrev pub require_capacity : Option Bool → Result (Unit {0})
require_capacity none = err sql_error
require_capacity (some true) = ok tt
require_capacity (some false) = err network_full
