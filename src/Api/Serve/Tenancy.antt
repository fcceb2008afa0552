-- ===== src/Api/Serve/Tenancy.antt =====
-- internal/coordinator/user_api.go: what an account's requests change in the tables.
use dshker_server.Api.Accounts.{perform_user}
use dshker_server.Api.Requests.{Request, bearer_token, request_user}
use dshker_server.Api.Routes.{
  UserCall, by_user, get_devices, get_network_devices, get_network_pairs, get_networks, get_user,
  param, patch_limit, patch_network, post_binding, post_logout, post_network, post_token,
  remove_binding, remove_network, remove_pair, route,
}
use dshker_server.Api.Serve.{admission, budgeted, routed, serve}
use dshker_server.Api.Server.{Answer, Deployment, Moment, Server, on_read, on_store, with_body}
use dshker_server.Prelude.{
  Map, Option-cases, Result, String, arith, bind_ok, err, inl, inr, ok, some, ◌>>=◌, ◌≡◌,
}
use dshker_server.Prelude.Int.{pos_part}
use dshker_server.Sessions.{shown}
use dshker_server.Store.History.Tenants.{KeepsOthers, same-KeepsOthers}
use dshker_server.Store.History.Tenants.Members.{
  bind_device-KeepsOthers, delete_network-KeepsOthers, delete_pair-KeepsOthers,
  issue_enrollment_token-KeepsOthers, unbind_device-KeepsOthers,
}
use dshker_server.Store.History.Tenants.Networks.{
  create_network-KeepsOthers, logout-KeepsOthers, rename_network-KeepsOthers,
  update_network_limit-KeepsOthers,
}
use dshker_server.Store.Users.{User, authenticate_user}

module _ (d : Deployment) where
  with_body-KeepsOthers {ℓ} :
      {A : Type ℓ} (id : String) (r : Result A) (next : A → Server → Answer × Server) (s : Server)
      → ((a : A) → KeepsOthers id s.db (next a s).1.db)
      → KeepsOthers id s.db (with_body d r next s).1.db
  unfolding with_body
  with_body-KeepsOthers id (err c) next s h = same-KeepsOthers id s.db
  with_body-KeepsOthers id (ok a) next s h = h a

  perform_user-KeepsOthers :
      (call : UserCall) (params : Map String) (user : User) (token : String) (request : Request)
      (m : Moment) (s : Server)
      → authenticate_user d.service token m.now s.db ≡ ok user
      → KeepsOthers user.id s.db (perform_user d call params user token request m s).1.db
  unfolding perform_user on_read on_store
  perform_user-KeepsOthers get_user params user token request m s shown =
      same-KeepsOthers user.id s.db
  perform_user-KeepsOthers post_logout params user token request m s shown =
      with_body-KeepsOthers user.id _ _ s
        (λ _. logout-KeepsOthers d.service token m.now s.db user shown)
  perform_user-KeepsOthers get_networks params user token request m s shown =
      same-KeepsOthers user.id s.db
  perform_user-KeepsOthers post_network params user token request m s shown =
      with_body-KeepsOthers user.id _ _ s
        (λ name. create_network-KeepsOthers m.id user.id name s.db)
  perform_user-KeepsOthers patch_network params user token request m s shown =
      with_body-KeepsOthers user.id _ _ s
        (λ name. rename_network-KeepsOthers user.id (param "networkId" params) name s.db)
  perform_user-KeepsOthers patch_limit params user token request m s shown =
      with_body-KeepsOthers user.id _ _ s (λ limit.
        update_network_limit-KeepsOthers user.id (param "networkId" params) (pos_part limit) m.now
          s.db)
  perform_user-KeepsOthers remove_network params user token request m s shown =
      with_body-KeepsOthers user.id _ _ s
        (λ _. delete_network-KeepsOthers user.id (param "networkId" params) m.now s.db)
  perform_user-KeepsOthers post_token params user token request m s shown =
      with_body-KeepsOthers user.id _ _ s (λ _.
        issue_enrollment_token-KeepsOthers d.service m.secret user.id (param "networkId" params)
          m.now s.db)
  perform_user-KeepsOthers get_devices params user token request m s shown =
      same-KeepsOthers user.id s.db
  perform_user-KeepsOthers get_network_devices params user token request m s shown =
      same-KeepsOthers user.id s.db
  perform_user-KeepsOthers post_binding params user token request m s shown =
      with_body-KeepsOthers user.id _ _ s
        (λ device_id. bind_device-KeepsOthers user.id (param "networkId" params) device_id s.db)
  perform_user-KeepsOthers remove_binding params user token request m s shown =
      with_body-KeepsOthers user.id _ _ s (λ _.
        unbind_device-KeepsOthers user.id (param "networkId" params) (param "deviceId" params) m.now
          s.db)
  perform_user-KeepsOthers get_network_pairs params user token request m s shown =
      same-KeepsOthers user.id s.db
  perform_user-KeepsOthers remove_pair params user token request m s shown =
      with_body-KeepsOthers user.id _ _ s (λ _.
        delete_pair-KeepsOthers user.id (param "networkId" params) (param "pairId" params) m.now
          s.db)

  -- A request of an account changes no account, device, link of a device to an account or
  -- renewal, no session of another account, no network that is neither the account's nor under
  -- the identifier of one that is, and no token, binding, share or pair of a network that it does
  -- not hold.
  pub serve-KeepsOthers :
      (call : UserCall) (params : Map String) (request : Request) (m : Moment) (s : Server)
      (user : User) (token : String)
      → route request.method request.path ≡ some (by_user call, params)
      → request_user d.service m.now s.db request ≡ ok (user, token)
      → KeepsOthers user.id s.db (serve d request m s).1.db
  unfolding serve routed request_user
  serve-KeepsOthers call params request m s user token met shown =
      let spent = budgeted request.remote_ip m.now s.budget in
      let (bearer, _, h) =
        bind_ok (bearer_token request.authorization)
          (λ token. authenticate_user d.service token m.now s.db >>= λ user. ok (user, token))
          shown in
      let (known, valid, same) =
        bind_ok (authenticate_user d.service bearer m.now s.db) (λ user. ok (user, bearer)) h in
      let own : authenticate_user d.service token m.now s.db ≡ ok user =
        ground (arith, valid, same) in
      elim (Option-cases (admission request spent.0)) [
        | inr (refusal, e) ↦ rw e (same-KeepsOthers user.id s.db)
        | inl e ↦
            rw (e, met, shown)
              (perform_user-KeepsOthers call params user token request m
                (record s { budget = spent.1 }) own)
      ]
