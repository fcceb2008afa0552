-- ===== src/Api/Serve/UserSteps.antt =====
-- internal/coordinator/user_api.go: what the operations of an account do to the server.
use dshker_server.Api.Accounts.{perform_user}
use dshker_server.Api.Requests.{Request}
use dshker_server.Api.Routes.{
  UserCall, get_devices, get_network_devices, get_network_pairs, get_networks, get_user, param,
  patch_limit, patch_network, post_binding, post_logout, post_network, post_token, remove_binding,
  remove_network, remove_pair,
}
use dshker_server.Api.Serve.Steps.{
  Steps, keeps-Steps, on_read-Steps, on_store-Steps, with_body-Steps,
}
use dshker_server.Api.Server.{Deployment, Moment, Server}
use dshker_server.Prelude.{Map, String, refl}
use dshker_server.Prelude.Int.{pos_part}
use dshker_server.Protocol.Signals.{Codec}
use dshker_server.Store.History.{
  binds_device, creates_network, deletes_network, deletes_pair, issues_token, limits_network,
  logs_out, renames_network, step, unbinds_device,
}
use dshker_server.Store.Users.{User}

module _ (d : Deployment) (codec : Codec) where
  pub perform_user-Steps :
      (call : UserCall) (params : Map String) (user : User) (token : String) (request : Request)
      (m : Moment) (s : Server)
      → Steps d.service codec m.now s (perform_user d call params user token request m s).1
  unfolding perform_user step
  perform_user-Steps get_user params user token request m s = keeps-Steps d codec m.now s
  perform_user-Steps post_logout params user token request m s =
      with_body-Steps d codec m.now _ _ s
        (λ _. on_store-Steps d codec m.now _ _ s (logs_out token) refl)
  perform_user-Steps get_networks params user token request m s = keeps-Steps d codec m.now s
  perform_user-Steps post_network params user token request m s =
      with_body-Steps d codec m.now _ _ s
        (λ name. on_store-Steps d codec m.now _ _ s (creates_network m.id user.id name) refl)
  perform_user-Steps patch_network params user token request m s =
      with_body-Steps d codec m.now _ _ s (λ name.
        on_store-Steps d codec m.now _ _ s (renames_network user.id (param "networkId" params) name)
          refl)
  perform_user-Steps patch_limit params user token request m s =
      with_body-Steps d codec m.now _ _ s (λ limit.
        on_store-Steps d codec m.now _ _ s
          (limits_network user.id (param "networkId" params) (pos_part limit)) refl)
  perform_user-Steps remove_network params user token request m s =
      with_body-Steps d codec m.now _ _ s (λ _.
        on_store-Steps d codec m.now _ _ s (deletes_network user.id (param "networkId" params))
          refl)
  perform_user-Steps post_token params user token request m s =
      with_body-Steps d codec m.now _ _ s (λ _.
        on_store-Steps d codec m.now _ _ s
          (issues_token m.secret user.id (param "networkId" params)) refl)
  perform_user-Steps get_devices params user token request m s = keeps-Steps d codec m.now s
  perform_user-Steps get_network_devices params user token request m s =
      on_read-Steps d codec m.now _ _ s
  perform_user-Steps post_binding params user token request m s =
      with_body-Steps d codec m.now _ _ s (λ device_id.
        on_store-Steps d codec m.now _ _ s
          (binds_device user.id (param "networkId" params) device_id) refl)
  perform_user-Steps remove_binding params user token request m s =
      with_body-Steps d codec m.now _ _ s (λ _.
        on_store-Steps d codec m.now _ _ s
          (unbinds_device user.id (param "networkId" params) (param "deviceId" params)) refl)
  perform_user-Steps get_network_pairs params user token request m s =
      on_read-Steps d codec m.now _ _ s
  perform_user-Steps remove_pair params user token request m s =
      with_body-Steps d codec m.now _ _ s (λ _.
        on_store-Steps d codec m.now _ _ s
          (deletes_pair user.id (param "networkId" params) (param "pairId" params)) refl)
