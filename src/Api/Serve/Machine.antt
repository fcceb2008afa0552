-- ===== src/Api/Serve/Machine.antt =====
-- internal/coordinator/server.go and signaling.go: what holds of the server after any events.
use dshker_server.Api.Requests.{Request, request_device, request_user}
use dshker_server.Api.Routes.{DeviceCall, Operation, UserCall, by_anyone, by_device, by_user, route}
use dshker_server.Api.Serve.{admission, budgeted, for_device, for_user, routed, serve}
use dshker_server.Api.Serve.CallSteps.{perform_device-Steps}
use dshker_server.Api.Serve.PublicSteps.{perform_public-Steps}
use dshker_server.Api.Serve.Steps.{Steps, keeps-Steps}
use dshker_server.Api.Serve.UserSteps.{perform_user-Steps}
use dshker_server.Api.Server.{Deployment, Moment, Server}
use dshker_server.Prelude.{
  Map, Option, Option-cases, Result, String, err, inl, inr, none, ok, some, ℕ,
}
use dshker_server.Protocol.Signals.{Codec}
use dshker_server.Relay.Limiter.{Limiter}
use dshker_server.Store.Pairing.{Device}
use dshker_server.Store.Users.{User}

module _ (d : Deployment) (codec : Codec) where
  after_budget :
      (now : ℕ) (s t : Server) (budget : Limiter)
      → Steps d.service codec now (record s { budget = budget }) t
      → Steps d.service codec now s t
  after_budget now s t budget x = record {
    tables = x.tables;
    calls = x.calls;
    sessions = x.sessions;
    queues = x.queues;
  }

  for_user-Steps :
      (call : UserCall) (params : Map String) (request : Request) (m : Moment)
      (r : Result (User × String)) (s : Server)
      → Steps d.service codec m.now s (for_user d call params request m r s).1
  for_user-Steps call params request m (err c) s = keeps-Steps d codec m.now s
  for_user-Steps call params request m (ok (user, token)) s =
      perform_user-Steps d codec call params user token request m s

  for_device-Steps :
      (call : DeviceCall) (params : Map String) (request : Request) (m : Moment) (r : Result Device)
      (s : Server)
      → Steps d.service codec m.now s (for_device d call params request m r s).1
  for_device-Steps call params request m (err c) s = keeps-Steps d codec m.now s
  for_device-Steps call params request m (ok dev) s =
      perform_device-Steps d codec call params dev request m s

  routed-Steps :
      (found : Option (Operation × Map String)) (request : Request) (m : Moment) (s : Server)
      → Steps d.service codec m.now s (routed d found request m s).1
  unfolding routed
  routed-Steps none request m s = keeps-Steps d codec m.now s
  routed-Steps (some (by_anyone call, params)) request m s =
      perform_public-Steps d codec call request m s
  routed-Steps (some (by_user call, params)) request m s =
      for_user-Steps call params request m (request_user d.service m.now s.db request) s
  routed-Steps (some (by_device call, params)) request m s =
      for_device-Steps call params request m (request_device s.db request) s

  -- A request makes at most one call of the store's history, at its time, changes the sessions
  -- only by their own calls, and keeps the queues of the hub within 32 messages where they were.
  pub serve-Steps :
      (request : Request) (m : Moment) (s : Server)
      → Steps d.service codec m.now s (serve d request m s).1
  unfolding serve
  serve-Steps request m s =
      let spent = budgeted request.remote_ip m.now s.budget in
      after_budget m.now s _ spent.1 (elim (Option-cases (admission request spent.0)) [
        | inl e ↦ rw e (
            routed-Steps (route request.method request.path) request m
              (record s { budget = spent.1 }))
        | inr (refusal, e) ↦ rw e (keeps-Steps d codec m.now (record s { budget = spent.1 }))
      ])
