-- ===== src/Api/Views.antt =====
-- internal/coordinator/pair_identity.go and user_api.go: what devices and users are shown.
pub mod Identity
pub mod Owners
use dshker_server.Prelude.{
  List, Result, String, any, invalid_request, leb, not, ok, pair_unauthorized, pairing_expired,
  reject, select, ℕ, ◌&&◌, ◌=s=◌, ◌>>=◌, ◌>>◌,
}
use dshker_server.Protocol.Ids.{Bytes, second, unix, valid_id}
use dshker_server.Sessions.{Presence, Sessions, presence}
use dshker_server.Store.Bindings.{is_open}
use dshker_server.Store.Networks.{network_owned}
use dshker_server.Store.PairActions.{authorize_pair, get_pair}
use dshker_server.Store.Pairing.{Device, device, is_active_state}
use dshker_server.Store.Schema.{Db, NetworkRow, PairRow, user_enabled}

pub record PairDeviceIdentity : Type 0 where
  pub device_id : String
  pub user_id : String
  pub public_key : Bytes
  pub name : String
  pub shown_presence : Presence

pub record PairIdentity : Type 0 where
  pub pair : PairRow
  pub initiator : PairDeviceIdentity
  pub target : PairDeviceIdentity

-- A device as it stands for one account.
abbrev pub project : Sessions → String → ℕ → Device → PairDeviceIdentity
project s account now d = record {
  device_id = d.id;
  user_id = account;
  public_key = d.public_key;
  name = d.name;
  shown_presence = presence s d.id account now;
}

unfoldable pub pair_identity : Sessions → Db → String → String → ℕ → Result PairIdentity
pair_identity s db device_id pair_id now = do
  reject (not (valid_id pair_id)) invalid_request
  pair ← get_pair db device_id pair_id
  reject (not (is_open pair.state)) pair_unauthorized
  reject (not (is_active_state pair.state) && leb pair.expires (unix now)) pairing_expired
  authorize_pair db pair
  first ← device db pair.initiator
  second ← device db pair.target
  viewer ← device db device_id
  ok (record {
    pair = pair;
    initiator = project s viewer.user_id now first;
    target = project s viewer.user_id now second;
  })

-- `NetworkPairs`
unfoldable pub network_pairs : String → String → Db → Result (List PairRow)
network_pairs user_id network_id db = do
  network_owned db user_id network_id
  ok (
      select
        (λ (p : PairRow).
          p.network_id =s= network_id
          && any
              (λ (n : NetworkRow).
                n.id =s= p.network_id
                && n.user_id =s= user_id
                && not n.deleted
                && user_enabled db n.user_id)
              db.networks)
        db.pairs)
