-- ===== src/Api/Serve/Isolation.antt =====
-- internal/coordinator/server.go, `deviceOperation`: what a device's requests change in the tables.
use dshker_server.Api.Calls.{invited_by, perform_device, with_certificate}
use dshker_server.Api.Devices.{
  greeted, heard, kept, on_action, on_dial, on_sessions, open_signals, opened, turn_answer,
}
use dshker_server.Api.Hub.{Hub, connect}
use dshker_server.Api.Requests.{Request, authenticate_peer, request_device, telemetry_of}
use dshker_server.Api.Routes.{
  DeviceCall, by_device, get_identity, get_me, get_pairs, get_signals, post_action, post_adopt,
  post_attempt, post_end, post_heartbeat, post_invite, post_lease, post_renewal, post_share,
  post_turn, route,
}
use dshker_server.Api.Serve.{admission, budgeted, routed, serve}
use dshker_server.Api.Serve.Guards.{one_peer}
use dshker_server.Api.Server.{Answer, Deployment, Moment, Server, on_read, on_store, with_body}
use dshker_server.Config.{enabled, turn_relay}
use dshker_server.Prelude.{
  Bool-cases, List, Map, Option-cases, Result, Result-cases, String, device_unauthorized, err, get,
  inl, inr, not, ok, refl, reject_ok, some, ℕ, ◌=s=◌, ◌≡◌,
}
use dshker_server.Protocol.Ids.{minute}
use dshker_server.Sessions.{Sessions, heartbeat, heartbeat_allowed, is_past, shown}
use dshker_server.Store.Certificates.{Certificate, authenticate}
use dshker_server.Store.Enrollment.{DeviceTelemetry, no_telemetry}
use dshker_server.Store.History.Confined.{
  IsConfined, adopt_network-IsConfined, invite-IsConfined, keeps-IsConfined, seen-IsConfined,
  share-IsConfined,
}
use dshker_server.Store.History.Confined.Actions.{
  act_on_pair-IsConfined, renew_certificate-IsConfined,
}
use dshker_server.Store.Pairing.{Device}
use dshker_server.Store.Schema.{Db}

heartbeat-IsConfined :
    (id user_id : String) (telemetry : DeviceTelemetry) (now : ℕ) (s : Sessions) (db : Db)
    → IsConfined id db (heartbeat id user_id telemetry now s db).2
unfolding heartbeat
heartbeat-IsConfined id user_id telemetry now s db =
    elim (Result-cases (heartbeat_allowed db id user_id)) [
      | inl (c, e) ↦ rw (e, heartbeat) (keeps-IsConfined id db)
      | inr (u, e) ↦ elim (Bool-cases (is_past (get id s.seen_saved) minute now)) [
        | inl f ↦ rw (e, f, heartbeat) (seen-IsConfined id telemetry now db)
        | inr f ↦ rw (e, f, heartbeat) (keeps-IsConfined id db)
      ]
    ]

module _ (d : Deployment) where
  with_body-IsConfined {ℓ} :
      {A : Type ℓ} (id : String) (r : Result A) (next : A → Server → Answer × Server) (s : Server)
      → ((a : A) → IsConfined id s.db (next a s).1.db)
      → IsConfined id s.db (with_body d r next s).1.db
  unfolding with_body
  with_body-IsConfined id (err c) next s h = keeps-IsConfined id s.db
  with_body-IsConfined id (ok a) next s h = h a

  turn_answer-IsConfined :
      (id : String) (now : ℕ) (s : Server) → IsConfined id s.db (turn_answer d id now s).1.db
  unfolding turn_answer on_read
  turn_answer-IsConfined id now s = elim (Bool-cases (enabled (turn_relay d.parsers d.config))) [
    | inl e ↦ rw e (keeps-IsConfined id s.db)
    | inr e ↦ rw e (keeps-IsConfined id s.db)
  ]

  kept-same : (id : String) (r : Result Hub) (s : Server) → (kept d id r s).1.db ≡ s.db
  unfolding kept
  kept-same id (err c) s = refl
  kept-same id (ok hub) s = refl

  greeted-same :
      (id : String) (r : Result (Unit {0}) × Sessions × Db) (s : Server)
      → (greeted d id r s).1.db ≡ r.2
  unfolding greeted
  greeted-same id (err c, sessions, db) s = kept-same id (err c) _
  greeted-same id (ok u, sessions, db) s = kept-same id _ _

  open_signals-IsConfined :
      (id : String) (request : Request) (now : ℕ) (s : Server)
      → IsConfined id s.db (open_signals d id request now s).1.db
  unfolding open_signals opened
  open_signals-IsConfined id request now s =
      let same = keeps-IsConfined id s.db in
      elim (Bool-cases (not (request.origin =s= ""))) [
        | inl e ↦ rw e same
        | inr e ↦ elim (Result-cases (connect id s.hub)) [
          | inl (c, f) ↦ rw (e, f) same
          | inr (hub, f) ↦ elim (Bool-cases (d.accepts request)) [
            | inr g ↦ rw (e, f, g) same
            | inl g ↦
                rw (e, f, g, greeted-same id (heartbeat id "" no_telemetry now s.sessions s.db))
                  (heartbeat-IsConfined id "" no_telemetry now s.sessions s.db)
          ]
        ]
      ]

  -- The certificate that a renewal reads is the one that the device has shown.
  with_certificate-IsConfined :
      (dev : Device) (cs : List Certificate) (next : Certificate → Server → Answer × Server)
      (s : Server)
      → authenticate_peer s.db cs ≡ ok dev
      → ((c : Certificate)
          → authenticate s.db (some c) ≡ ok dev
          → IsConfined dev.id s.db (next c s).1.db)
      → IsConfined dev.id s.db (with_certificate d cs next s).1.db
  unfolding with_certificate
  with_certificate-IsConfined dev cs next s shown h =
      let (c, one, valid) = one_peer s.db cs dev shown in rw one (h c valid)

  perform_device-IsConfined :
      (call : DeviceCall) (params : Map String) (dev : Device) (request : Request) (m : Moment)
      (s : Server)
      → authenticate_peer s.db request.peer_certificates ≡ ok dev
      → IsConfined dev.id s.db (perform_device d call params dev request m s).1.db
  unfolding perform_device on_read on_store on_action on_dial on_sessions heard invited_by
  perform_device-IsConfined get_me params dev request m s shown = keeps-IsConfined dev.id s.db
  perform_device-IsConfined get_pairs params dev request m s shown = keeps-IsConfined dev.id s.db
  perform_device-IsConfined get_identity params dev request m s shown = keeps-IsConfined dev.id s.db
  perform_device-IsConfined post_turn params dev request m s shown =
      turn_answer-IsConfined dev.id m.now s
  perform_device-IsConfined get_signals params dev request m s shown =
      open_signals-IsConfined dev.id request m.now s
  perform_device-IsConfined post_share params dev request m s shown =
      with_body-IsConfined dev.id _ _ s
        (λ network_id. share-IsConfined d.service m.id dev.id network_id m.now s.db)
  perform_device-IsConfined post_heartbeat params dev request m s shown =
      with_body-IsConfined dev.id _ _ s
        (λ body. heartbeat-IsConfined dev.id body.user_id (telemetry_of body) m.now s.sessions s.db)
  perform_device-IsConfined post_invite params dev request m s shown =
      with_body-IsConfined dev.id _ _ s (λ code.
        with_body-IsConfined dev.id _ _ s
          (λ read. invite-IsConfined d.service m.id dev.id read m.now s.db))
  perform_device-IsConfined post_adopt params dev request m s shown =
      adopt_network-IsConfined m.ids dev.id m.now s.db
  perform_device-IsConfined post_action params dev request m s shown =
      with_body-IsConfined dev.id _ _ s (λ body.
        act_on_pair-IsConfined d.service dev.id body.pair_id body.action body.fingerprint m.now
          s.db)
  perform_device-IsConfined post_renewal params dev request m s shown =
      with_body-IsConfined dev.id _ _ s (λ body.
        with_certificate-IsConfined dev request.peer_certificates _ s shown
          (λ c valid. renew_certificate-IsConfined d.service c body m.now s.db dev valid))
  perform_device-IsConfined post_attempt params dev request m s shown =
      with_body-IsConfined dev.id _ _ s (λ body. keeps-IsConfined dev.id s.db)
  perform_device-IsConfined post_lease params dev request m s shown =
      with_body-IsConfined dev.id _ _ s (λ body. keeps-IsConfined dev.id s.db)
  perform_device-IsConfined post_end params dev request m s shown =
      with_body-IsConfined dev.id _ _ s (λ body. keeps-IsConfined dev.id s.db)

  -- A request of a device, whose certificate it shows, changes no account, session, network,
  -- token, link of a device to an account, binding or line of the audit, no other device, no
  -- renewal of another one and no pair that the device takes no part in.
  pub serve-IsConfined :
      (call : DeviceCall) (params : Map String) (request : Request) (m : Moment) (s : Server)
      (dev : Device)
      → route request.method request.path ≡ some (by_device call, params)
      → request_device s.db request ≡ ok dev
      → IsConfined dev.id s.db (serve d request m s).1.db
  unfolding serve routed request_device
  serve-IsConfined call params request m s dev met shown =
      let spent = budgeted request.remote_ip m.now s.budget in
      let (_, valid) =
        reject_ok (not request.tls) device_unauthorized
          (authenticate_peer s.db request.peer_certificates) shown in
      elim (Option-cases (admission request spent.0)) [
        | inr (refusal, e) ↦ rw e (keeps-IsConfined dev.id s.db)
        | inl e ↦
            rw (e, met, shown)
              (perform_device-IsConfined call params dev request m (record s { budget = spent.1 })
                valid)
      ]
