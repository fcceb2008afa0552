-- ===== src/Api/Serve/PublicSteps.antt =====
-- What the operations that anyone may call, and those of an account, do to the server.
use dshker_server.Api.Public.{perform_public}
use dshker_server.Api.Requests.{Request}
use dshker_server.Api.Routes.{
  PublicCall, get_health, post_enroll, post_identity, post_join, post_login, post_query,
  post_recover, post_register,
}
use dshker_server.Api.Serve.Steps.{
  Steps, keeps-Steps, on_read-Steps, on_store-Steps, with_body-Steps,
}
use dshker_server.Api.Server.{Deployment, Moment, Server}
use dshker_server.Prelude.{refl}
use dshker_server.Protocol.Signals.{Codec}
use dshker_server.Store.History.{
  creates_user, enrolls, joins_network, logs_in, recovers_certificate, step,
}

module _ (d : Deployment) (codec : Codec) where
  pub perform_public-Steps :
      (call : PublicCall) (request : Request) (m : Moment) (s : Server)
      → Steps d.service codec m.now s (perform_public d call request m s).1
  unfolding perform_public step
  perform_public-Steps get_health request m s = keeps-Steps d codec m.now s
  perform_public-Steps post_identity request m s =
      with_body-Steps d codec m.now _ _ s (λ _. on_read-Steps d codec m.now _ _ s)
  perform_public-Steps post_enroll request m s =
      with_body-Steps d codec m.now _ _ s
        (λ body. on_store-Steps d codec m.now _ _ s (enrolls body) refl)
  perform_public-Steps post_join request m s =
      with_body-Steps d codec m.now _ _ s
        (λ body. on_store-Steps d codec m.now _ _ s (joins_network body) refl)
  perform_public-Steps post_query request m s =
      with_body-Steps d codec m.now _ _ s (λ _. on_read-Steps d codec m.now _ _ s)
  perform_public-Steps post_recover request m s =
      with_body-Steps d codec m.now _ _ s
        (λ body. on_store-Steps d codec m.now _ _ s (recovers_certificate body) refl)
  perform_public-Steps post_register request m s =
      with_body-Steps d codec m.now _ _ s (λ body.
        on_store-Steps d codec m.now _ _ s (creates_user m.id body.email body.password) refl)
  perform_public-Steps post_login request m s = with_body-Steps d codec m.now _ _ s (λ body.
      on_store-Steps d codec m.now _ _ s (logs_in m.busy m.secret body.username body.password) refl)
