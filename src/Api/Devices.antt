-- ===== src/Api/Devices.antt =====
-- internal/coordinator/server.go, `deviceOperation`, and signaling.go, `serveSignals`: the
-- operations of a device.
use Prim.Native.String.{len}
use dshker_server.Api.Hub.{Hub, connect, disconnect, send}
use dshker_server.Api.Notice.{notify_pair}
use dshker_server.Api.Requests.{Request}
use dshker_server.Api.Server.{
  Answer, Deployment, Server, Value, done_value, first, heard_value, lease_value, mark, on_read,
  pair_value, respond, turn_value, upgraded,
}
use dshker_server.Config.{enabled, turn_relay, turn_url}
use dshker_server.Prelude.{
  Bool, Result, String, commit, err, false, if◌then◌else◌, ltb, not, ok, reject, relay_unconfigured,
  true, ℕ, ◌=s=◌, ◌>>◌,
}
use dshker_server.Protocol.Ids.{unix}
use dshker_server.Protocol.Leases.{Lease}
use dshker_server.Sessions.{Sessions, heartbeat}
use dshker_server.Store.Enrollment.{no_telemetry}
use dshker_server.Store.PairActions.{◌=st=◌}
use dshker_server.Store.Schema.{Db, PairRow, Tx, revoked}

module _ (d : Deployment) where
  -- `TurnCredentials`
  unfoldable pub turn_credentials : String → ℕ → Result (String × String)
  turn_credentials device_id now = do
    reject (ltb (len d.config.turn_shared_secret) 32) relay_unconfigured
    d.credentials d.config.turn_shared_secret device_id now

  unfoldable pub turn_answer : String → ℕ → Server → Answer × Server
  turn_answer device_id now s =
      if enabled (turn_relay d.parsers d.config)
      then on_read d (λ login. turn_value (turn_url d.config) login.0 login.1)
          (turn_credentials device_id now) s
      else (respond d done_value (err relay_unconfigured), s)

  unfoldable pub heard : String → ℕ → Result (Unit {0}) × Sessions × Db → Server → Answer × Server
  heard device_id now (r, sessions, db) s = (
    respond d (λ _. heard_value device_id (unix now)) r,
    record s { sessions = sessions; db = db },
  )

  unfoldable pub on_sessions {ℓ} :
      {A : Type ℓ} → (A → Value) → Result A × Sessions → Server → Answer × Server
  on_sessions value (r, sessions) s = (respond d value r, record s { sessions = sessions })

  unfoldable pub on_dial : Result Lease × Sessions × Hub → Server → Answer × Server
  on_dial (r, sessions, hub) s =
      (respond d lease_value r, record s { sessions = sessions; hub = hub })

  -- Both ends hear of a pair that has been revoked.
  unfoldable pub notified : Tx PairRow → Hub → Hub
  notified (err c) hub = hub
  notified (ok (pair, _)) hub =
      if pair.state =st= revoked then (notify_pair pair (d.encode_revoked pair) hub).1 else hub

  unfoldable pub on_action : Tx PairRow → Server → Answer × Server
  on_action r s =
      (respond d pair_value (first d r), record s { db = commit s.db r; hub = notified r s.hub })

  -- The socket is kept, or closed and forgotten again.
  unfoldable pub kept : String → Result Hub → Server → Answer × Server
  kept device_id (err c) s =
      let left = disconnect device_id s.hub s.sessions in
      (upgraded false, record s { hub = left.0; sessions = left.1 })
  kept device_id (ok hub) s = (upgraded true, record s { hub = hub })

  unfoldable pub greeted : String → Result (Unit {0}) × Sessions × Db → Server → Answer × Server
  greeted device_id (err c, sessions, db) s =
      kept device_id (err c) (record s { sessions = sessions; db = db })
  greeted device_id (ok _, sessions, db) s =
      kept device_id (send device_id (d.encode_ready device_id) s.hub)
        (record s { sessions = sessions; db = db })

  unfoldable pub opened : String → ℕ → Bool → Result Hub → Server → Answer × Server
  opened device_id now accepted (err c) s = (mark 409 "p2p.device_busy", s)
  opened device_id now false (ok hub) s = (upgraded false, s)
  opened device_id now true (ok hub) s =
      greeted device_id (heartbeat device_id "" no_telemetry now s.sessions s.db)
        (record s { hub = hub })

  -- `serveSignals`, up to the loops of its two ends.
  unfoldable pub open_signals : String → Request → ℕ → Server → Answer × Server
  open_signals device_id request now s =
      if not (request.origin =s= "")
      then (mark 403 "p2p.invalid_signal_origin", s)
      else opened device_id now (d.accepts request) (connect device_id s.hub) s
