-- ===== src/Sessions.antt =====
-- internal/coordinator/sessions.go: presence, connection attempts and their leases, in memory.
-- A call returns its result beside the sessions, which keep what was written before an error.
pub mod Admission
pub mod Orderly
pub mod Checks
pub mod Links
pub mod Leases
pub mod Signalling
pub mod Withdrawal
pub mod Reports
use dshker_server.Prelude.{
  Bool, List, Map, Option, Result, String, [], any_value, attempt_not_found, commit,
  connection_busy, delete, device_unauthorized, err, false, find, get, if◌then◌else◌,
  invalid_generation, invalid_request, is_some, keep_if, lease_expired, leb, ltb, none, not, ok,
  or_fail, pair_revoked, pair_unauthorized, peer_offline, put, reject, remove, some, true, ℕ, ◌&&◌,
  ◌+◌, ◌==◌, ◌=s=◌, ◌>>=◌, ◌>>◌, ◌||◌, ◌∷◌,
}
use dshker_server.Protocol.Ids.{minute, unix, valid_id}
use dshker_server.Protocol.Leases.{Lease, lease_fields}
use dshker_server.Protocol.Service.{Service}
use dshker_server.Protocol.Signals.{max_exact}
use dshker_server.Store.Bindings.{device_linked_to}
use dshker_server.Store.Enrollment.{DeviceTelemetry, record_device_seen}
use dshker_server.Store.History.Lifecycle.{then}
use dshker_server.Store.PairActions.{same_network, shared_network_id}
use dshker_server.Store.Pairing.{device}
use dshker_server.Store.Schema.{Db}

-- A `Result` beside the new sessions.
abbrev pub Act : Type 0 → Type 0 → Type 0
Act S A = Result A × S

pub record Attempt : Type 0 where
  pub lease : Lease
  pub sequence : Map ℕ
  pub sdp_hash : Map String
  pub message_ids : List String
  pub message_count : ℕ

-- An entry of `presence`; the source joins the two identifiers by a NUL, which neither holds.
pub record PresenceRow : Type 0 where
  pub device_id : String
  pub user_id : String
  pub seen : ℕ

pub record Sessions : Type 0 where
  pub attempts : Map Attempt
  pub presence : List PresenceRow
  pub seen_saved : Map ℕ

unfoldable pub new_sessions : Sessions
new_sessions = record { attempts = []; presence = []; seen_saved = [] }

abbrev pub is_presence : String → String → PresenceRow → Bool
is_presence device_id user_id p = p.device_id =s= device_id && p.user_id =s= user_id

abbrev pub set_presence : String → String → ℕ → List PresenceRow → List PresenceRow
set_presence device_id user_id now rows =
    record { device_id = device_id; user_id = user_id; seen = now }
    ∷ delete (is_presence device_id user_id) rows

abbrev pub half_minute : ℕ
half_minute = 30_000_000_000

-- `!at.Add(interval).After(now)` of a map's entry; a missing one is the zero time.
abbrev pub is_past : Option ℕ → ℕ → ℕ → Bool
is_past none interval now = true
is_past (some at) interval now = leb (at + interval) now

abbrev pub last_seen_of : Option PresenceRow → Option ℕ
last_seen_of none = none
last_seen_of (some p) = some p.seen

abbrev pub presence_at : Sessions → String → String → Option ℕ
presence_at s device_id user_id = last_seen_of (find (is_presence device_id user_id) s.presence)

-- `Presence`
pub data Presence : Type 0 where
  offline stale online : Presence

abbrev pub shown : Option ℕ → ℕ → Presence
shown none now = offline
shown (some at) now = if leb (at + half_minute) now then stale else online

unfoldable pub presence : Sessions → String → String → ℕ → Presence
presence s device_id user_id now = shown (presence_at s device_id user_id) now

-- What a heartbeat checks in the store.
abbrev pub heartbeat_allowed : Db → String → String → Result (Unit {0})
heartbeat_allowed db id user_id = do
  device db id
  reject (not (user_id =s= "") && not (device_linked_to db id user_id)) device_unauthorized

-- The sessions, and the tables with the last-seen time where it is due.
unfoldable pub heartbeat :
    String → String → DeviceTelemetry → ℕ → Sessions → Db → Result (Unit {0}) × Sessions × Db
heartbeat id user_id telemetry now s db = elim (heartbeat_allowed db id user_id) [
  | err c ↦ (err c, s, db)
  | ok _ ↦
      let rows = if user_id =s= "" then s.presence else set_presence id user_id now s.presence in
      if is_past (get id s.seen_saved) minute now
      then (
        ok tt,
        record s { presence = rows; seen_saved = put id now s.seen_saved },
        commit db (record_device_seen id telemetry now db),
      )
      else (ok tt, record s { presence = rows }, db)
]

unfoldable pub go_offline : String → String → Sessions → Sessions
go_offline id user_id s = record s {
  presence =
      delete
        (λ (p : PresenceRow).
          if user_id =s= "" then p.device_id =s= id else is_presence id user_id p)
        s.presence;
  seen_saved = remove id s.seen_saved;
}

-- `current.lease.ExpiresAt <= now.Unix()`
abbrev pub unexpired : ℕ → Attempt → Bool
unexpired now a = ltb (unix now) a.lease.expires_at

abbrev pub connects : String → String → Attempt → Bool
connects a b t =
    (t.lease.from_device_id =s= a && t.lease.to_device_id =s= b)
    || (t.lease.from_device_id =s= b && t.lease.to_device_id =s= a)

-- One end is signed in to its account and was heard of within thirty seconds.
unfoldable pub is_reachable : Sessions → Db → String → ℕ → Result (Unit {0})
is_reachable s db id now = do
  d ← device db id
  reject (is_past (presence_at s id d.user_id) half_minute now) peer_offline

abbrev pub prune : ℕ → Sessions → Sessions
prune now s = record s { attempts = keep_if (unexpired now) s.attempts }

abbrev pub is_busy : String → String → Map Attempt → Bool
is_busy sender target attempts =
    is_some (get target attempts) || any_value (connects sender target) attempts

abbrev pub start_attempt : Lease → Attempt
start_attempt lease = record {
  lease = lease;
  sequence = [];
  sdp_hash = [];
  message_ids = [];
  message_count = 0;
}

module _ (service : Service) where
  abbrev pub sign_lease : Lease → Lease
  sign_lease l = record l { signature = service.sign (lease_fields l) }

  -- What `Begin` checks before it looks at the attempts.
  unfoldable pub may_begin : Sessions → Db → String → String → ℕ → ℕ → Result (Unit {0})
  may_begin s db sender target generation now = do
    reject (not (valid_id target) || target =s= sender) invalid_request
    reject (not (same_network db sender target)) pair_unauthorized
    reject (generation == 0 || ltb max_exact generation) invalid_generation
    is_reachable s db sender now
    is_reachable s db target now

  abbrev pub new_lease : String → String → String → String → String → ℕ → ℕ → Lease
  new_lease attempt_id user_id network_id sender target generation now = sign_lease (record {
    version = 1;
    service_id = service.service_id;
    user_id = user_id;
    network_id = network_id;
    pair_id = target;
    attempt_id = attempt_id;
    from_device_id = sender;
    to_device_id = target;
    generation = generation;
    revision = 1;
    expires_at = unix (now + minute);
    permission = "dsh-session";
    signature = "";
  })

  -- The lease of a new attempt, once the expired ones are gone.
  unfoldable pub grant : Sessions → Db → String → String → String → ℕ → ℕ → Result Lease
  grant s db attempt_id sender target generation now = do
    reject (is_busy sender target s.attempts) connection_busy
    d ← device db sender
    network_id ← shared_network_id db sender target
    ok (new_lease attempt_id d.user_id network_id sender target generation now)

  abbrev pub open_attempt : String → Result Lease → Sessions → Act Sessions Lease
  open_attempt target (err c) s = (err c, s)
  open_attempt target (ok lease) s =
      (ok lease, record s { attempts = put target (start_attempt lease) s.attempts })

  -- `attempt_id` is what `protocol.NewID` mints.
  unfoldable pub begin : String → String → String → ℕ → ℕ → Db → Sessions → Act Sessions Lease
  begin attempt_id sender target generation now db s =
      elim (may_begin s db sender target generation now) [
        | err c ↦ (err c, s)
        | ok _ ↦
            let pruned = prune now s in
            open_attempt target (grant pruned db attempt_id sender target generation now) pruned
      ]

-- The attempt that a caller may go on with.
unfoldable pub authorize : Sessions → Db → String → String → String → ℕ → Result Attempt
authorize s db sender pair_id attempt_id now = do
  current ← or_fail (get pair_id s.attempts) lease_expired
  reject (not (current.lease.attempt_id =s= attempt_id) || not (unexpired now current))
      lease_expired
  reject (not (same_network db sender pair_id)) pair_revoked
  device db current.lease.from_device_id
  device db current.lease.to_device_id
  ok current

module _ (service : Service) where
  abbrev pub extend : ℕ → Lease → Lease
  extend now l = sign_lease service (record l { expires_at = unix (now + minute) })

  unfoldable pub renew : String → String → String → ℕ → Db → Sessions → Act Sessions Lease
  renew sender pair_id attempt_id now db s = elim (authorize s db sender pair_id attempt_id now) [
    | err c ↦ (err c, s)
    | ok current ↦
        let lease = extend now current.lease in
        (
          ok lease,
          record s { attempts = put pair_id (record current { lease = lease }) s.attempts },
        )
  ]

abbrev pub is_end : String → Lease → Bool
is_end sender l = l.from_device_id =s= sender || l.to_device_id =s= sender

abbrev pub endable : String → String → Option Attempt → Bool
endable sender attempt_id none = false
endable sender attempt_id (some current) =
    current.lease.attempt_id =s= attempt_id && is_end sender current.lease

-- `End`
unfoldable pub end_attempt : String → String → String → Sessions → Act Sessions (Unit {0})
end_attempt sender pair_id attempt_id s =
    if endable sender attempt_id (get pair_id s.attempts)
    then (ok tt, record s { attempts = remove pair_id s.attempts })
    else (err attempt_not_found, s)
