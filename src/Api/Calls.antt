-- ===== src/Api/Calls.antt =====
-- internal/coordinator/server.go: what the authenticated device may call.
use dshker_server.Api.Devices.{heard, on_action, on_dial, on_sessions, open_signals, turn_answer}
use dshker_server.Api.Dial.{dial}
use dshker_server.Api.Requests.{Request, read_body, read_share, read_text, telemetry_of}
use dshker_server.Api.Routes.{
  DeviceCall, get_identity, get_me, get_pairs, get_signals, param, post_action, post_adopt,
  post_attempt, post_end, post_heartbeat, post_invite, post_lease, post_renewal, post_share,
  post_turn,
}
use dshker_server.Api.Server.{
  Answer, Deployment, Moment, Server, answered, certificate_value, device_value, done_value,
  ended_value, lease_value, on_read, on_store, pair_identity_value, pair_value, pairs_value,
  respond, share_value, with_body,
}
use dshker_server.Api.Views.{pair_identity}
use dshker_server.Prelude.{List, Map, Result, String, [], device_unauthorized, err, ◌∷◌}
use dshker_server.Sessions.{end_attempt, heartbeat, renew}
use dshker_server.Store.Certificates.{Certificate, renew_certificate}
use dshker_server.Store.PairActions.{act_on_pair, adopt_network, list_pairs}
use dshker_server.Store.Pairing.{Device, Share, invite, share}

module _ (d : Deployment) where
  abbrev heartbeat_names : List String
  heartbeat_names = "version" ∷ "platform" ∷ "architecture" ∷ "userId" ∷ []

  abbrev action_names : List String
  action_names = "pairId" ∷ "action" ∷ "fingerprint" ∷ []

  abbrev lease_names : List String
  lease_names = "pairId" ∷ "attemptId" ∷ []

  -- `request.TLS.PeerCertificates[0]`
  unfoldable pub with_certificate :
      List Certificate → (Certificate → Server → Answer × Server) → Server → Answer × Server
  with_certificate [] next s = (respond d done_value (err device_unauthorized), s)
  with_certificate (c ∷ _) next s = next c s

  -- The code of an invitation is read before the store is asked.
  unfoldable pub invited_by : String → Moment → Result Share → Server → Answer × Server
  invited_by device_id m r =
      with_body d r
        (λ code s. on_store d pair_value (invite d.service m.id device_id code m.now s.db) s)

  unfoldable pub perform_device :
      DeviceCall → Map String → Device → Request → Moment → Server → Answer × Server
  perform_device get_me params dev request m s = (answered (device_value dev), s)
  perform_device get_pairs params dev request m s = on_read d pairs_value (list_pairs s.db dev.id) s
  perform_device get_identity params dev request m s =
      on_read d pair_identity_value
        (pair_identity s.sessions s.db dev.id (param "pairId" params) m.now) s
  perform_device post_turn params dev request m s = turn_answer d dev.id m.now s
  perform_device get_signals params dev request m s = open_signals d dev.id request m.now s
  perform_device post_share params dev request m s =
      with_body d (read_text d.bodies "networkId" request)
        (λ network_id s.
          on_store d share_value (share d.service m.id dev.id network_id m.now s.db) s)
        s
  perform_device post_heartbeat params dev request m s =
      with_body d (read_body d.bodies d.bodies.strict_heartbeat heartbeat_names request)
        (λ body s.
          heard d dev.id m.now
            (heartbeat dev.id body.user_id (telemetry_of body) m.now s.sessions s.db) s)
        s
  perform_device post_invite params dev request m s =
      with_body d (read_text d.bodies "share" request)
        (λ code s. invited_by dev.id m (read_share d.bodies code) s) s
  perform_device post_adopt params dev request m s =
      on_store d pairs_value (adopt_network m.ids dev.id m.now s.db) s
  perform_device post_action params dev request m s =
      with_body d (read_body d.bodies d.bodies.strict_action action_names request)
        (λ body s.
          on_action d
            (act_on_pair d.service dev.id body.pair_id body.action body.fingerprint m.now s.db) s)
        s
  perform_device post_renewal params dev request m s =
      with_body d (read_body d.bodies d.bodies.strict_renewal ("requestId" ∷ "csr" ∷ []) request)
        (λ body. with_certificate request.peer_certificates (λ certificate s.
          on_store d certificate_value (renew_certificate d.service certificate body m.now s.db) s))
        s
  perform_device post_attempt params dev request m s =
      with_body d (read_body d.bodies d.bodies.strict_begin ("pairId" ∷ "generation" ∷ []) request)
        (λ body s.
          on_dial d
            (dial d.service d.encode_lease m.id dev.id body.pair_id body.generation m.now s.db
              s.sessions s.hub)
            s)
        s
  perform_device post_lease params dev request m s =
      with_body d (read_body d.bodies d.bodies.strict_lease lease_names request)
        (λ body s.
          on_sessions d lease_value
            (renew d.service dev.id body.pair_id body.attempt_id m.now s.db s.sessions) s)
        s
  perform_device post_end params dev request m s =
      with_body d (read_body d.bodies d.bodies.strict_lease lease_names request)
        (λ body s.
          on_sessions d (λ _. ended_value body.attempt_id)
            (end_attempt dev.id body.pair_id body.attempt_id s.sessions) s)
        s
