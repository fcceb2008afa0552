-- ===== src/Api/Public.antt =====
-- internal/coordinator/server.go and user_api.go: the operations that anyone may call.
use dshker_server.Api.Requests.{Request, read_body, read_text}
use dshker_server.Api.Routes.{
  PublicCall, get_health, post_enroll, post_identity, post_join, post_login, post_query,
  post_recover, post_register,
}
use dshker_server.Api.Server.{
  Answer, Deployment, Identity, Moment, Server, answered, certificate_value, device_value,
  health_value, identity_fields, identity_value, on_read, on_store, session_value, user_value,
  with_body,
}
use dshker_server.Prelude.{
  List, Result, String, [], invalid_challenge, not, ok, reject, ◌&&◌, ◌>>◌, ◌∷◌,
}
use dshker_server.Protocol.Ids.{valid_id, valid_nonce}
use dshker_server.Store.Certificates.{read_enrollment, recover_certificate}
use dshker_server.Store.Enrollment.{enroll, join_network}
use dshker_server.Store.Pairing.{protocol_version}
use dshker_server.Store.Users.{create_user, login}

module _ (d : Deployment) where
  -- `identity`
  abbrev unsigned_identity : String → Identity
  unsigned_identity nonce = record {
    version = protocol_version;
    service_id = d.service.service_id;
    public_key = d.service.public_key;
    certificate = d.ca;
    nonce = nonce;
    https_origin = d.config.https_origin;
    wss_url = d.config.wss_url;
    stun_address = d.config.stun_address;
    signature = "";
  }

  unfoldable pub identity : String → Result Identity
  identity nonce = do
    reject (not (valid_nonce nonce) && not (valid_id nonce)) invalid_challenge
    let unsigned = unsigned_identity nonce
    ok (record unsigned { signature = d.service.sign (identity_fields unsigned) })

  abbrev enrollment_names : List String
  enrollment_names = "requestId" ∷ "token" ∷ "csr" ∷ "name" ∷ []

  abbrev join_names : List String
  join_names = "requestId" ∷ "networkId" ∷ "csr" ∷ "name" ∷ []

  abbrev query_names : List String
  query_names = "requestId" ∷ "publicKey" ∷ "issuedAt" ∷ "signature" ∷ []

  abbrev recovery_names : List String
  recovery_names = "deviceId" ∷ "requestId" ∷ "csr" ∷ "token" ∷ []

  unfoldable pub perform_public : PublicCall → Request → Moment → Server → Answer × Server
  perform_public get_health request m s = (answered (health_value d.service.service_id), s)
  perform_public post_identity request m s =
      with_body d (read_text d.bodies "nonce" request)
        (λ nonce. on_read d identity_value (identity nonce)) s
  perform_public post_enroll request m s =
      with_body d (read_body d.bodies d.bodies.strict_enrollment enrollment_names request)
        (λ body s. on_store d device_value (enroll d.service body m.now s.db) s) s
  perform_public post_join request m s =
      with_body d (read_body d.bodies d.bodies.strict_join join_names request)
        (λ body s. on_store d device_value (join_network d.service body m.now s.db) s) s
  perform_public post_query request m s =
      with_body d (read_body d.bodies d.bodies.strict_query query_names request)
        (λ body s. on_read d device_value (read_enrollment d.service body m.now s.db) s) s
  perform_public post_recover request m s =
      with_body d (read_body d.bodies d.bodies.strict_recovery recovery_names request)
        (λ body s. on_store d certificate_value (recover_certificate d.service body m.now s.db) s) s
  perform_public post_register request m s =
      with_body d (read_body d.bodies d.bodies.strict_register ("email" ∷ "password" ∷ []) request)
        (λ body s.
          on_store d user_value (create_user d.service m.id body.email body.password s.db) s)
        s
  perform_public post_login request m s =
      with_body d (read_body d.bodies d.bodies.strict_login ("username" ∷ "password" ∷ []) request)
        (λ body s.
          on_store d session_value
            (login d.service m.busy m.secret body.username body.password m.now s.db) s)
        s
