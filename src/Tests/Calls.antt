-- ===== src/Tests/Calls.antt =====
-- The hub, a dial and a pair's identity at concrete inputs.
use dshker_server.Api.Dial.{dial}
use dshker_server.Api.Dial.Attempts.{dial-failed}
use dshker_server.Api.Hub.{Hub, send}
use dshker_server.Api.Hub.Queues.{IsShort}
use dshker_server.Api.Notice.{notify_pair}
use dshker_server.Api.Notice.Ends.{IsTold, notify_pair-tells}
use dshker_server.Api.Views.{PairDeviceIdentity, PairIdentity, pair_identity}
use dshker_server.Api.Views.Identity.{pair_identity-authorized}
use dshker_server.Prelude.{
  Bool, List, String, [], count_values, err, false, get, ok, peer_offline, refl, some, true, ◌+◌,
  ◌=s=◌, ◌∷◌, ◌≡◌, ◌≤◌,
}
use dshker_server.Protocol.Ids.{Bytes, unix, valid_id}
use dshker_server.Protocol.Leases.{Lease, lease_fields}
use dshker_server.Sessions.{
  Attempt, Sessions, begin, end_attempt, grant, is_reachable, may_begin, online, presence,
  start_attempt,
}
use dshker_server.Store.Bindings.{binding_owner}
use dshker_server.Store.PairActions.{
  authorize_pair, get_pair, list_pairs, same_network, shared_network_id, takes_part,
}
use dshker_server.Store.Pairing.{Device, device, is_live_at}
use dshker_server.Store.Schema.{Db, PairRow, active, user_enabled}
use dshker_server.Tests.Toy.{first_id, home, house, noon, second_id, toy}

abbrev encode : Lease → String
encode lease = lease.attempt_id

-- Both devices have a connection, the second with one message waiting.
abbrev hub : Hub
hub = (first_id, []) ∷ (second_id, "ready" ∷ []) ∷ []

abbrev hub_after : Hub
hub_after = (second_id, "ready" ∷ "d00000000000" ∷ []) ∷ (first_id, []) ∷ []

hub-IsShort : IsShort hub
hub-IsShort = record { short = refl }

send_runs : send second_id "d00000000000" hub ≡ ok hub_after
unfolding send
send_runs = refl

abbrev both_online : Sessions
both_online = record {
  attempts = [];
  presence =
      record { device_id = first_id; user_id = "a00000000000"; seen = noon }
      ∷ record { device_id = second_id; user_id = "a00000000000"; seen = noon }
      ∷ [];
  seen_saved = [];
}

abbrev unsigned : Lease
unsigned = record {
  version = 1;
  service_id = "cccccccccccc";
  user_id = "a00000000000";
  network_id = home;
  pair_id = second_id;
  attempt_id = "d00000000000";
  from_device_id = first_id;
  to_device_id = second_id;
  generation = 7;
  revision = 1;
  expires_at = unix noon + 60;
  permission = "dsh-session";
  signature = "";
}

abbrev dialled : Lease
dialled = record unsigned { signature = toy.sign (lease_fields unsigned) }

abbrev dialling : Sessions
dialling = record both_online { attempts = (second_id, start_attempt dialled) ∷ [] }

dial_runs :
    dial toy encode "d00000000000" first_id second_id 7 noon house both_online hub
    ≡ (ok dialled, dialling, hub_after)
unfolding dial begin may_begin valid_id same_network is_reachable device user_enabled grant
    shared_network_id send
dial_runs = refl

-- The second device has no connection.
abbrev lonely : Hub
lonely = (first_id, []) ∷ []

lonely_runs :
    dial toy encode "d00000000000" first_id second_id 7 noon house both_online lonely
    ≡ (err peer_offline, both_online, lonely)
unfolding dial begin may_begin valid_id same_network is_reachable device user_enabled grant
    shared_network_id send end_attempt
lonely_runs = refl

dial-failed_example :
    (lonely ≡ lonely)
    × ((p : Attempt → Bool)
        → count_values p both_online.attempts ≤ count_values p both_online.attempts)
dial-failed_example =
    dial-failed toy encode "d00000000000" first_id second_id 7 noon house both_online both_online
      lonely lonely peer_offline lonely_runs

abbrev friends : PairRow
friends = record {
  id = "f00000000000";
  network_id = home;
  initiator = first_id;
  target = second_id;
  state = active;
  expires = unix noon;
  revision = 3;
}

abbrev friendly : Db
friendly = record house { pairs = friends ∷ [] }

abbrev seen_as : String → Bytes → PairDeviceIdentity
seen_as id key = record {
  device_id = id;
  user_id = "a00000000000";
  public_key = key;
  name = "box";
  shown_presence = online;
}

abbrev seen : PairIdentity
seen = record {
  pair = friends;
  initiator = seen_as first_id (1 ∷ []);
  target = seen_as second_id (2 ∷ []);
}

identity_runs : pair_identity both_online friendly first_id "f00000000000" noon ≡ ok seen
unfolding pair_identity valid_id get_pair list_pairs device user_enabled authorize_pair
    binding_owner presence
identity_runs = refl

pair_identity-authorized_example :
    (takes_part first_id friends ≡ true)
    × (is_live_at (unix noon) friends ≡ true)
    × (authorize_pair friendly friends ≡ ok tt)
    × (viewer : Device) × (device friendly first_id ≡ ok viewer)
    × (seen.initiator.user_id ≡ viewer.user_id)
    × (seen.target.user_id ≡ viewer.user_id)
pair_identity-authorized_example =
    pair_identity-authorized both_online friendly first_id "f00000000000" noon seen identity_runs

-- The second device waits for its messages; the first is not connected.
abbrev waiting_second : Hub
waiting_second = (second_id, "earlier" ∷ []) ∷ ("elsewhere", []) ∷ []

abbrev told : List String × Hub
told = notify_pair friends "revoked" waiting_second

notify_pair-tells_example :
    ((queue : List String)
      → get first_id waiting_second ≡ some queue
      → IsTold "revoked" first_id queue told.0 told.1)
    × ((queue : List String)
        → get second_id waiting_second ≡ some queue
        → IsTold "revoked" second_id queue told.0 told.1)
    × ((other : String)
        → (first_id =s= other) ≡ false
        → (second_id =s= other) ≡ false
        → get other told.1 ≡ get other waiting_second)
notify_pair-tells_example = notify_pair-tells friends "revoked" waiting_second refl refl
