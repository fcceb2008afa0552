-- ===== src/Api/Serve/DeviceSteps.antt =====
-- internal/coordinator/server.go, `deviceOperation`: what the operations of a device do to the
-- server.
use dshker_server.Api.Devices.{greeted, heard, kept, notified, on_action, open_signals, opened}
use dshker_server.Api.Dial.{dial}
use dshker_server.Api.Hub.{Hub, connect, disconnect, send}
use dshker_server.Api.Hub.Queues.{IsShort, connect-IsShort, disconnect-IsShort, send-appends}
use dshker_server.Api.Notice.Ends.{notify_pair-IsShort}
use dshker_server.Api.Requests.{Request}
use dshker_server.Api.Serve.Steps.{Steps, keeps-Steps}
use dshker_server.Api.Server.{Deployment, Server}
use dshker_server.Prelude.{
  Bool-cases, List, Result, Result-cases, String, [], ap, commit, err, err_ne_ok, get, inl, inr,
  not, ok, refl, ℕ, ◌=s=◌, ◌∷◌, ◌≡◌, ◌⊎◌,
}
use dshker_server.Protocol.Ids.{minute}
use dshker_server.Protocol.Signals.{Codec}
use dshker_server.Sessions.{Sessions, begin, go_offline, heartbeat, heartbeat_allowed, is_past}
use dshker_server.Sessions.Links.{
  SessionCall, begins, ends, goes_offline, heartbeats, session_run, session_step,
}
use dshker_server.Store.Enrollment.{DeviceTelemetry, no_telemetry}
use dshker_server.Store.History.{Call, reports_seen, step}
use dshker_server.Store.PairActions.{◌=st=◌}
use dshker_server.Store.Schema.{Db, PairRow, Tx, revoked}

module _ (d : Deployment) (codec : Codec) where
  -- A heartbeat writes the time at which the device was seen, or nothing.
  heartbeat_tables :
      (id user_id : String) (telemetry : DeviceTelemetry) (now : ℕ) (s : Sessions) (db : Db)
      → ((heartbeat id user_id telemetry now s db).2 ≡ db)
        ⊎ ((c : Call) × ((heartbeat id user_id telemetry now s db).2 ≡ step d.service db (now, c)))
  unfolding step heartbeat
  heartbeat_tables id user_id telemetry now s db =
      elim (Result-cases (heartbeat_allowed db id user_id)) [
        | inl (c, e) ↦ inl (rw (e, heartbeat) refl)
        | inr (u, e) ↦ elim (Bool-cases (is_past (get id s.seen_saved) minute now)) [
          | inl f ↦ inr (reports_seen id telemetry, rw (e, f, heartbeat) refl)
          | inr f ↦ inl (rw (e, f, heartbeat) refl)
        ]
      ]

  pub heard-Steps :
      (id user_id : String) (telemetry : DeviceTelemetry) (now : ℕ) (s : Server)
      → Steps d.service codec now s
          (heard d id now (heartbeat id user_id telemetry now s.sessions s.db) s).1
  unfolding heard session_run session_step
  heard-Steps id user_id telemetry now s = record {
    tables = heartbeat_tables id user_id telemetry now s.sessions s.db;
    calls = (s.db, now, heartbeats id user_id telemetry) ∷ [];
    sessions = refl;
    queues = λ h. h;
  }

  notified-IsShort : (r : Tx PairRow) (hub : Hub) → IsShort hub → IsShort (notified d r hub)
  unfolding notified
  notified-IsShort (err c) hub s = s
  notified-IsShort (ok (pair, db)) hub s = elim (Bool-cases (pair.state =st= revoked)) [
    | inl e ↦ rw e (notify_pair-IsShort pair (d.encode_revoked pair) hub s)
    | inr e ↦ rw e s
  ]

  pub on_action-Steps :
      (r : Tx PairRow) (now : ℕ) (s : Server) (c : Call)
      → commit s.db r ≡ step d.service s.db (now, c)
      → Steps d.service codec now s (on_action d r s).1
  unfolding on_action session_run
  on_action-Steps r now s c e = record {
    tables = inr (c, e);
    calls = [];
    sessions = refl;
    queues = notified-IsShort r s.hub;
  }

  -- An attempt begins, and ends again if its target does not hear of it.
  pub dial_calls :
      (attempt_id sender target : String) (generation now : ℕ) (db : Db) (s : Sessions) (hub : Hub)
      → (cs : List (Db × ℕ × SessionCall)) × ((dial d.service d.encode_lease attempt_id sender
            target generation now db s hub).1
          ≡ session_run d.service codec s cs)
        × (IsShort hub
            → IsShort
                (dial d.service d.encode_lease attempt_id sender target generation now db s hub).2)
  unfolding dial session_run session_step
  dial_calls attempt_id sender target generation now db s hub =
      let begun = begin d.service attempt_id sender target generation now db s in
      let call : Db × ℕ × SessionCall = (db, now, begins attempt_id sender target generation) in
      elim (Result-cases begun.0) [
        | inl (c, e) ↦ (call ∷ [], rw e refl, rw e (λ h. h))
        | inr (lease, e) ↦
            elim (Result-cases (send lease.to_device_id (d.encode_lease lease) hub)) [
              | inl (c, f) ↦ (
                call ∷ (db, now, ends sender lease.pair_id lease.attempt_id) ∷ [],
                rw (e, f) refl,
                rw (e, f) (λ h. h),
              )
              | inr (hub', f) ↦ (
                call ∷ [],
                rw (e, f) refl,
                rw (e, f)
                    (λ h. (send-appends lease.to_device_id (d.encode_lease lease) hub hub' h f).0),
              )
            ]
      ]

  -- Whether the socket is kept or closed again.
  kept-Steps :
      (id : String) (now : ℕ) (r : Result Hub) (s t : Server) (c : Db × ℕ × SessionCall)
      → (t.db ≡ s.db) ⊎ ((call : Call) × (t.db ≡ step d.service s.db (now, call)))
      → t.sessions ≡ session_step d.service codec s.sessions c
      → (IsShort s.hub → IsShort t.hub)
      → ((hub : Hub) → r ≡ ok hub → IsShort s.hub → IsShort hub)
      → Steps d.service codec now s (kept d id r t).1
  unfolding kept session_run session_step disconnect
  kept-Steps id now (err e) s t c tables sessions short sent = record {
    tables = tables;
    calls = c ∷ (t.db, now, goes_offline id "") ∷ [];
    sessions = ap (go_offline id "") sessions;
    queues = λ h. disconnect-IsShort id t.hub t.sessions (short h);
  }
  kept-Steps id now (ok hub) s t c tables sessions short sent = record {
    tables = tables;
    calls = c ∷ [];
    sessions = sessions;
    queues = sent hub refl;
  }

  greeted-Steps :
      (id : String) (now : ℕ) (r : Result (Unit {0}) × Sessions × Db) (s : Server) (hub : Hub)
      (c : Db × ℕ × SessionCall)
      → (r.2 ≡ s.db) ⊎ ((call : Call) × (r.2 ≡ step d.service s.db (now, call)))
      → r.1 ≡ session_step d.service codec s.sessions c
      → (IsShort s.hub → IsShort hub)
      → Steps d.service codec now s (greeted d id r (record s { hub = hub })).1
  unfolding greeted
  greeted-Steps id now (err e, sessions, db) s hub c tables same short =
      kept-Steps id now (err e) s (record s { hub = hub; sessions = sessions; db = db }) c tables
        same short (λ hub' h. absurd (err_ne_ok refl h))
  greeted-Steps id now (ok u, sessions, db) s hub c tables same short =
      kept-Steps id now (send id (d.encode_ready id) hub) s
        (record s { hub = hub; sessions = sessions; db = db }) c tables same short
        (λ hub' h k. (send-appends id (d.encode_ready id) hub hub' (short k) h).0)

  pub open_signals-Steps :
      (id : String) (request : Request) (now : ℕ) (s : Server)
      → Steps d.service codec now s (open_signals d id request now s).1
  unfolding open_signals opened session_step
  open_signals-Steps id request now s = elim (Bool-cases (not (request.origin =s= ""))) [
    | inl e ↦ rw e (keeps-Steps d codec now s)
    | inr e ↦ elim (Result-cases (connect id s.hub)) [
      | inl (c, f) ↦ rw (e, f) (keeps-Steps d codec now s)
      | inr (hub, f) ↦ elim (Bool-cases (d.accepts request)) [
        | inr g ↦ rw (e, f, g) (keeps-Steps d codec now s)
        | inl g ↦
            rw (e, f, g)
              (greeted-Steps id now (heartbeat id "" no_telemetry now s.sessions s.db) s hub
                (s.db, now, heartbeats id "" no_telemetry)
                (heartbeat_tables id "" no_telemetry now s.sessions s.db) refl
                (λ h. connect-IsShort id s.hub hub h f))
      ]
    ]
  ]
