-- ===== src/Api/Accounts.antt =====
-- internal/coordinator/user_api.go: the operations of an account.
use dshker_server.Api.Requests.{Request, read_body, read_text}
use dshker_server.Api.Routes.{
  UserCall, get_devices, get_network_devices, get_network_pairs, get_networks, get_user, param,
  patch_limit, patch_network, post_binding, post_logout, post_network, post_token, remove_binding,
  remove_network, remove_pair,
}
use dshker_server.Api.Server.{
  Answer, Deployment, ListedDevice, Moment, Server, answered, devices_value, done_value,
  network_value, networks_value, on_read, on_store, pairs_value, token_value, user_value, with_body,
}
use dshker_server.Api.Views.{network_pairs}
use dshker_server.Prelude.{List, Map, Result, String, [], ℕ, ◌+◌, ◌∷◌}
use dshker_server.Prelude.Int.{pos_part}
use dshker_server.Protocol.Ids.{unix}
use dshker_server.Sessions.{Sessions, presence}
use dshker_server.Store.Bindings.{
  DeviceEntry, bind_device, delete_network, delete_pair, network_devices, unbind_device,
  user_devices,
}
use dshker_server.Store.Enrollment.{issue_enrollment_token}
use dshker_server.Store.Networks.{
  create_network, list_networks, rename_network, update_network_limit,
}
use dshker_server.Store.Pairing.{five_minutes}
use dshker_server.Store.Users.{User, logout}

module _ (d : Deployment) where
  -- `withPresence`: the presence of each device for this account.
  unfoldable pub with_presence : Sessions → String → ℕ → List DeviceEntry → List ListedDevice
  with_presence s user_id now [] = []
  with_presence s user_id now (e ∷ entries) =
      record { entry = e; shown_as = presence s e.device_id user_id now }
      ∷ with_presence s user_id now entries

  abbrev read_nothing : Request → Result (Unit {0})
  read_nothing = read_body d.bodies d.bodies.strict_nothing []

  -- `user` is the account of the token.
  unfoldable pub perform_user :
      UserCall → Map String → User → String → Request → Moment → Server → Answer × Server
  perform_user get_user params user token request m s = (answered (user_value user), s)
  perform_user post_logout params user token request m s =
      with_body d (read_nothing request)
        (λ _ s. on_store d (λ _. done_value "loggedOut") (logout d.service token s.db) s) s
  perform_user get_networks params user token request m s =
      (answered (networks_value (list_networks user.id s.db)), s)
  perform_user post_network params user token request m s =
      with_body d (read_text d.bodies "name" request)
        (λ name s. on_store d network_value (create_network m.id user.id name s.db) s) s
  perform_user patch_network params user token request m s =
      with_body d (read_text d.bodies "name" request)
        (λ name s.
          on_store d network_value (rename_network user.id (param "networkId" params) name s.db) s)
        s
  -- A negative limit is refused like zero.
  perform_user patch_limit params user token request m s =
      with_body d (read_body d.bodies d.bodies.strict_limit ("maxDevices" ∷ []) request)
        (λ limit s.
          on_store d network_value
            (update_network_limit user.id (param "networkId" params) (pos_part limit) m.now s.db) s)
        s
  perform_user remove_network params user token request m s =
      with_body d (read_nothing request)
        (λ _ s.
          on_store d (λ _. done_value "deleted")
            (delete_network user.id (param "networkId" params) m.now s.db) s)
        s
  perform_user post_token params user token request m s =
      with_body d (read_nothing request)
        (λ _ s.
          on_store d
            (λ issued. token_value issued (param "networkId" params) (unix (m.now + five_minutes)))
            (issue_enrollment_token d.service m.secret user.id (param "networkId" params) m.now
              s.db)
            s)
        s
  perform_user get_devices params user token request m s = (
    answered (devices_value (with_presence s.sessions user.id m.now (user_devices user.id s.db))),
    s,
  )
  perform_user get_network_devices params user token request m s =
      on_read d (λ entries. devices_value (with_presence s.sessions user.id m.now entries))
        (network_devices user.id (param "networkId" params) s.db) s
  perform_user post_binding params user token request m s =
      with_body d (read_text d.bodies "deviceId" request)
        (λ device_id s.
          on_store d (λ _. done_value "bound")
            (bind_device user.id (param "networkId" params) device_id s.db) s)
        s
  perform_user remove_binding params user token request m s =
      with_body d (read_nothing request)
        (λ _ s.
          on_store d (λ _. done_value "unbound")
            (unbind_device user.id (param "networkId" params) (param "deviceId" params) m.now s.db)
            s)
        s
  perform_user get_network_pairs params user token request m s =
      on_read d pairs_value (network_pairs user.id (param "networkId" params) s.db) s
  perform_user remove_pair params user token request m s =
      with_body d (read_nothing request)
        (λ _ s.
          on_store d (λ _. done_value "deleted")
            (delete_pair user.id (param "networkId" params) (param "pairId" params) m.now s.db) s)
        s
