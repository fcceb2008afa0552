-- ===== src/Tests/Connections.antt =====
-- Presence and leases at concrete inputs.
use dshker_server.Prelude.{String, [], ok, refl, true, ℕ, ◌+◌, ◌∷◌, ◌≡◌}
use dshker_server.Protocol.Ids.{minute, second, unix, valid_id}
use dshker_server.Protocol.Leases.{Lease, lease_fields, verify_lease}
use dshker_server.Sessions.{
  Attempt, Sessions, authorize, begin, extend, grant, heartbeat, is_reachable, may_begin,
  new_sessions, renew, start_attempt,
}
use dshker_server.Sessions.Leases.{
  HasNames, IsIdentity, IsIssued, begin-verify_lease, dialled, renew-verify_lease, scope_of_lease,
}
use dshker_server.Store.Bindings.{device_linked_to, is_bound}
use dshker_server.Store.Enrollment.{DeviceTelemetry}
use dshker_server.Store.PairActions.{same_network, shared_network_id}
use dshker_server.Store.Pairing.{Device, device}
use dshker_server.Store.Schema.{user_enabled}
use dshker_server.Tests.Toy.{first_id, home, house, noon, second_id, service_key, toy, toy-Lawful}

abbrev pub a_user : String
a_user = "a00000000000"

-- Both devices were heard of at noon.
abbrev both_online : Sessions
both_online = record {
  attempts = [];
  presence =
      record { device_id = first_id; user_id = a_user; seen = noon }
      ∷ record { device_id = second_id; user_id = a_user; seen = noon }
      ∷ [];
  seen_saved = [];
}

abbrev pub silent : DeviceTelemetry
silent = record { version = ""; platform = ""; architecture = "" }

heartbeat_runs : (heartbeat first_id a_user silent noon new_sessions house).0 ≡ ok tt
unfolding heartbeat device user_enabled device_linked_to new_sessions
heartbeat_runs = refl

abbrev pub attempt_id : String
attempt_id = "d00000000000"

abbrev unsigned : ℕ → Lease
unsigned expires_at = record {
  version = 1;
  service_id = "cccccccccccc";
  user_id = a_user;
  network_id = home;
  pair_id = second_id;
  attempt_id = attempt_id;
  from_device_id = first_id;
  to_device_id = second_id;
  generation = 7;
  revision = 1;
  expires_at = expires_at;
  permission = "dsh-session";
  signature = "";
}

abbrev lease : Lease
lease = record (unsigned (unix noon + 60)) {
  signature = toy.sign (lease_fields (unsigned (unix noon + 60)));
}

begin_runs : (begin toy attempt_id first_id second_id 7 noon house both_online).0 ≡ ok lease
unfolding begin may_begin valid_id same_network is_reachable device user_enabled grant
    shared_network_id
begin_runs = refl

toy-IsIdentity : IsIdentity toy
toy-IsIdentity = record { key_size = refl; named = refl }

house-HasNames : HasNames house
unfolding valid_id
house-HasNames = record { owners = refl; networks = refl }

id_ok : (valid_id attempt_id ≡ true) × (valid_id first_id ≡ true)
unfolding valid_id
id_ok = (refl, refl)

begin-verify_lease_example :
    (d : Device) × (network_id : String) × (device house first_id ≡ ok d)
    × (is_bound house network_id first_id ≡ true)
    × (is_bound house network_id second_id ≡ true)
    × (verify_lease toy lease service_key
          (dialled attempt_id first_id second_id 7)
          d.user_id
          network_id
          1
          noon
        ≡ ok tt)
begin-verify_lease_example =
    begin-verify_lease toy attempt_id first_id second_id 7 noon house both_online lease toy-Lawful
      toy-IsIdentity house-HasNames id_ok.0 id_ok.1 begin_runs

abbrev pub attempt : Attempt
attempt = start_attempt lease

abbrev pub connected : Sessions
connected = record both_online { attempts = (second_id, attempt) ∷ [] }

lease-IsIssued : IsIssued toy lease noon
unfolding valid_id lease_fields
lease-IsIssued = record {
  version_one = refl;
  by_service = refl;
  for_sessions = refl;
  first_revision = refl;
  ids = refl;
  owner = refl;
  network = refl;
  fresh = refl;
  signed = refl;
}

abbrev pub renewed_lease : Lease
renewed_lease = extend toy (noon + second) lease

renew_runs :
    (renew toy first_id second_id attempt_id (noon + second) house connected).0 ≡ ok renewed_lease
unfolding renew authorize same_network device user_enabled
renew_runs = refl

renew-verify_lease_example :
    (verify_lease toy renewed_lease service_key
        (scope_of_lease lease)
        lease.user_id
        lease.network_id
        1
        (noon + second)
      ≡ ok tt)
    × (renewed_lease.expires_at ≡ unix (noon + second + minute))
renew-verify_lease_example =
    renew-verify_lease toy first_id second_id attempt_id (noon + second) noon house connected
      attempt renewed_lease toy-Lawful toy-IsIdentity refl lease-IsIssued renew_runs
