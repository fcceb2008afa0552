-- ===== src/Api/Serve/CallSteps.antt =====
-- internal/coordinator/server.go: what each operation of a device does to the server.
use dshker_server.Api.Calls.{invited_by, perform_device, with_certificate}
use dshker_server.Api.Devices.{on_dial, turn_answer}
use dshker_server.Api.Dial.{dial}
use dshker_server.Api.Requests.{Request, telemetry_of}
use dshker_server.Api.Routes.{
  DeviceCall, get_identity, get_me, get_pairs, get_signals, post_action, post_adopt, post_attempt,
  post_end, post_heartbeat, post_invite, post_lease, post_renewal, post_share, post_turn,
}
use dshker_server.Api.Serve.DeviceSteps.{
  dial_calls, heard-Steps, on_action-Steps, open_signals-Steps,
}
use dshker_server.Api.Serve.Steps.{
  Steps, keeps-Steps, on_read-Steps, on_sessions-Steps, on_store-Steps, with_body-Steps,
}
use dshker_server.Api.Server.{Answer, Deployment, Moment, Server}
use dshker_server.Config.{enabled, turn_relay}
use dshker_server.Prelude.{Bool-cases, List, Map, String, [], inl, inr, refl, ℕ, ◌∷◌}
use dshker_server.Protocol.Signals.{Codec}
use dshker_server.Sessions.Links.{ends, renews, session_step}
use dshker_server.Store.Certificates.{Certificate}
use dshker_server.Store.History.{
  acts_on_pair, adopts_network, invites, renews_certificate, shares, step,
}
use dshker_server.Store.Pairing.{Device}

module _ (d : Deployment) (codec : Codec) where
  with_certificate-Steps :
      (cs : List Certificate) (next : Certificate → Server → Answer × Server) (now : ℕ) (s : Server)
      → ((c : Certificate) → Steps d.service codec now s (next c s).1)
      → Steps d.service codec now s (with_certificate d cs next s).1
  unfolding with_certificate
  with_certificate-Steps [] next now s h = keeps-Steps d codec now s
  with_certificate-Steps (c ∷ _) next now s h = h c

  turn_answer-Steps :
      (id : String) (now : ℕ) (s : Server) → Steps d.service codec now s (turn_answer d id now s).1
  unfolding turn_answer
  turn_answer-Steps id now s = elim (Bool-cases (enabled (turn_relay d.parsers d.config))) [
    | inl e ↦ rw e (on_read-Steps d codec now _ _ s)
    | inr e ↦ rw e (keeps-Steps d codec now s)
  ]

  on_dial-Steps :
      (id sender target : String) (generation now : ℕ) (s : Server)
      → Steps d.service codec now s
          (on_dial d
            (dial d.service d.encode_lease id sender target generation now s.db s.sessions s.hub)
            s).1
  unfolding on_dial
  on_dial-Steps id sender target generation now s =
      let (cs, same, short) =
        dial_calls d codec id sender target generation now s.db s.sessions s.hub in
      record { tables = inl refl; calls = cs; sessions = same; queues = short }

  pub perform_device-Steps :
      (call : DeviceCall) (params : Map String) (dev : Device) (request : Request) (m : Moment)
      (s : Server)
      → Steps d.service codec m.now s (perform_device d call params dev request m s).1
  unfolding perform_device step session_step invited_by
  perform_device-Steps get_me params dev request m s = keeps-Steps d codec m.now s
  perform_device-Steps get_pairs params dev request m s = on_read-Steps d codec m.now _ _ s
  perform_device-Steps get_identity params dev request m s = on_read-Steps d codec m.now _ _ s
  perform_device-Steps post_turn params dev request m s = turn_answer-Steps dev.id m.now s
  perform_device-Steps get_signals params dev request m s =
      open_signals-Steps d codec dev.id request m.now s
  perform_device-Steps post_share params dev request m s =
      with_body-Steps d codec m.now _ _ s
        (λ network_id. on_store-Steps d codec m.now _ _ s (shares m.id dev.id network_id) refl)
  perform_device-Steps post_heartbeat params dev request m s =
      with_body-Steps d codec m.now _ _ s
        (λ body. heard-Steps d codec dev.id body.user_id (telemetry_of body) m.now s)
  perform_device-Steps post_invite params dev request m s =
      with_body-Steps d codec m.now _ _ s (λ code.
        with_body-Steps d codec m.now _ _ s
          (λ read. on_store-Steps d codec m.now _ _ s (invites m.id dev.id read) refl))
  perform_device-Steps post_adopt params dev request m s =
      on_store-Steps d codec m.now _ _ s (adopts_network m.ids dev.id) refl
  perform_device-Steps post_action params dev request m s =
      with_body-Steps d codec m.now _ _ s (λ body.
        on_action-Steps d codec _ m.now s
          (acts_on_pair dev.id body.pair_id body.action body.fingerprint) refl)
  perform_device-Steps post_renewal params dev request m s =
      with_body-Steps d codec m.now _ _ s (λ body.
        with_certificate-Steps request.peer_certificates _ m.now s
          (λ c. on_store-Steps d codec m.now _ _ s (renews_certificate c body) refl))
  perform_device-Steps post_attempt params dev request m s =
      with_body-Steps d codec m.now _ _ s
        (λ body. on_dial-Steps m.id dev.id body.pair_id body.generation m.now s)
  perform_device-Steps post_lease params dev request m s =
      with_body-Steps d codec m.now _ _ s (λ body.
        on_sessions-Steps d codec m.now _ _ s
          (s.db, m.now, renews dev.id body.pair_id body.attempt_id) refl)
  perform_device-Steps post_end params dev request m s =
      with_body-Steps d codec m.now _ _ s (λ body.
        on_sessions-Steps d codec m.now _ _ s
          (s.db, m.now, ends dev.id body.pair_id body.attempt_id) refl)
