-- ===== src/Api/Serve.antt =====
-- internal/coordinator/server.go and signaling.go: a request from its admission to its answer, and
-- the server as a machine of such events.
pub mod Steps
pub mod PublicSteps
pub mod UserSteps
pub mod DeviceSteps
pub mod CallSteps
pub mod Machine
pub mod Sound
pub mod Guards
pub mod Isolation
pub mod Tenancy
use dshker_server.Api.Accounts.{perform_user}
use dshker_server.Api.Calls.{perform_device}
use dshker_server.Api.Channel.{read_signal}
use dshker_server.Api.Hub.{disconnect, receive}
use dshker_server.Api.Public.{perform_public}
use dshker_server.Api.Requests.{Request, request_device, request_user}
use dshker_server.Api.Routes.{DeviceCall, Operation, UserCall, by_anyone, by_device, by_user, route}
use dshker_server.Api.Server.{Answer, Deployment, Moment, Server, done_value, mark, respond}
use dshker_server.Prelude.{
  Bool, List, Map, Option, Result, String, [], err, false, if◌then◌else◌, none, not, ok, some, ℕ,
  ◌=s=◌, ◌∷◌,
}
use dshker_server.Protocol.Signals.{Codec, Signal}
use dshker_server.Relay.Limiter.{Limiter, allow, new_limiter}
use dshker_server.Relay.Limiter.Budget.{within}
use dshker_server.Sessions.{new_sessions}
use dshker_server.Store.History.{empty_db}
use dshker_server.Store.Pairing.{Device}
use dshker_server.Store.Users.{User}

-- What the middleware `admission` decides.
abbrev pub budgeted : Option String → ℕ → Limiter → Bool × Limiter
budgeted none now budget = (false, budget)
budgeted (some ip) now budget = allow ip now budget

abbrev pub admission : Request → Bool → Option Answer
admission request within =
    if not within
    then some (mark 429 "p2p.rate_limited")
    else if not request.tls
    then some (mark 403 "p2p.tls_required")
    else if not (request.raw_query =s= "")
    then some (mark 400 "p2p.invalid_request")
    else none

module _ (d : Deployment) where
  abbrev pub for_user :
      UserCall → Map String → Request → Moment → Result (User × String) → Server → Answer × Server
  for_user call params request m (err c) s = (respond d done_value (err c), s)
  for_user call params request m (ok (user, token)) s =
      perform_user d call params user token request m s

  abbrev pub for_device :
      DeviceCall → Map String → Request → Moment → Result Device → Server → Answer × Server
  for_device call params request m (err c) s = (respond d done_value (err c), s)
  for_device call params request m (ok dev) s = perform_device d call params dev request m s

  -- The groups of routes with their middleware, and `NoRoute`.
  unfoldable pub routed :
      Option (Operation × Map String) → Request → Moment → Server → Answer × Server
  routed none request m s = (mark 404 "p2p.unknown_operation", s)
  routed (some (by_anyone call, params)) request m s = perform_public d call request m s
  routed (some (by_user call, params)) request m s =
      for_user call params request m (request_user d.service m.now s.db request) s
  routed (some (by_device call, params)) request m s =
      for_device call params request m (request_device s.db request) s

  abbrev pub admitted_or : Option Answer → Request → Moment → Server → Answer × Server
  admitted_or (some refusal) request m s = (refusal, s)
  admitted_or none request m s = routed (route request.method request.path) request m s

  -- `ServeHTTP`. One clock stands for the several readings of the time in a request.
  unfoldable pub serve : Request → Moment → Server → Answer × Server
  serve request m s =
      let spent = budgeted request.remote_ip m.now s.budget in
      admitted_or (admission request spent.0) request m (record s { budget = spent.1 })

-- What happens to a server: a request, a message on a socket, a message taken off a queue, and the
-- end of a socket.
pub data Event : Type 0 where
  arrives : Request → Event
  reads : String → Option Signal → Event
  writes : String → Event
  leaves : String → Event

module _ (d : Deployment) (codec : Codec) (encode : Signal → String) where
  unfoldable pub react : Server → Moment × Event → Server
  react s (m, arrives request) = (serve d request m s).1
  react s (m, reads sender signal) =
      let (_, sessions, hub) =
        read_signal d.service codec encode sender signal m.now s.db s.sessions s.hub in
      record s { sessions = sessions; hub = hub }
  react s (m, writes id) = record s { hub = (receive id s.hub).1 }
  react s (m, leaves id) =
      let (hub, sessions) = disconnect id s.hub s.sessions in
      record s { hub = hub; sessions = sessions }

  unfoldable pub react_all : Server → List (Moment × Event) → Server
  react_all s [] = s
  react_all s (e ∷ es) = react_all (react s e) es

-- `NewServer` on an empty store.
abbrev pub new_server : Server
new_server = record { db = empty_db; sessions = new_sessions; budget = new_limiter; hub = [] }
