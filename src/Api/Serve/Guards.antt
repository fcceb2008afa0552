-- ===== src/Api/Serve/Guards.antt =====
-- internal/coordinator/server.go and user_api.go: which requests get as far as an operation.
use dshker_server.Api.Errors.{Failure, error_text, write_error}
use dshker_server.Api.Requests.{
  Request, authenticate_peer, bearer_token, request_device, request_user,
}
use dshker_server.Api.Routes.{Operation, by_anyone, by_device, by_user, route}
use dshker_server.Api.Serve.{admission, budgeted, routed, serve}
use dshker_server.Api.Server.{Answer, Deployment, Moment, Server, failed, respond}
use dshker_server.Prelude.{
  Bool, Bool-cases, List, Map, Option, Result-cases, String, [], arith, bind_ok,
  device_unauthorized, err_ne_ok, false, inl, inr, none, not, ok, refl, reject_ok, some, true, ℕ,
  ◌=s=◌, ◌>>=◌, ◌∷◌, ◌≡◌, ◌⊎◌,
}
use dshker_server.Protocol.Service.{Service}
use dshker_server.Sessions.{shown}
use dshker_server.Store.Certificates.{Certificate, authenticate, key_is}
use dshker_server.Store.Pairing.{Device, device}
use dshker_server.Store.Schema.{Db}
use dshker_server.Store.Users.{User, authenticate_user}

-- The client's one certificate is valid, and its key is that of the device that it names.
abbrev pub ShowsDevice : Db → Request → Type 0
ShowsDevice db request =
    (c : Certificate) × (dev : Device) × (request.peer_certificates ≡ c ∷ [])
    × (c.trusted ≡ true)
    × (device db c.common_name ≡ ok dev)
    × (key_is c.key dev.public_key ≡ true)

-- The one `Authorization` header bears the token of a session of an enabled account.
abbrev pub ShowsUser : Service → ℕ → Db → Request → Type 0
ShowsUser service now db request =
    (header token : String) × (user : User) × (request.authorization ≡ header ∷ [])
    × (bearer_token (header ∷ []) ≡ ok token)
    × (authenticate_user service token now db ≡ ok user)

abbrev pub MayCall : Service → ℕ → Db → Request → Operation → Type 0
MayCall service now db request (by_anyone call) = Unit {0}
MayCall service now db request (by_user call) = ShowsUser service now db request
MayCall service now db request (by_device call) = ShowsDevice db request

pub one_peer :
    (db : Db) (cs : List Certificate) (dev : Device)
    → authenticate_peer db cs ≡ ok dev
    → (c : Certificate) × (cs ≡ c ∷ []) × (authenticate db (some c) ≡ ok dev)
one_peer db [] dev h = absurd (err_ne_ok refl h)
one_peer db (c ∷ []) dev h = (c, refl, h)
one_peer db (_ ∷ _ ∷ _) dev h = absurd (err_ne_ok refl h)

authenticate_ok :
    (db : Db) (c : Certificate) (dev : Device)
    → authenticate db (some c) ≡ ok dev
    → (c.trusted ≡ true) × (device db c.common_name ≡ ok dev) × (key_is c.key dev.public_key ≡ true)
unfolding authenticate
authenticate_ok db c dev h = elim (Result-cases (device db c.common_name)) [
  | inl (e, f) ↦ absurd (ground arith)
  | inr (known, f) ↦ (ground arith, ground arith, ground arith)
]

request_device_ok :
    (db : Db) (request : Request) (dev : Device)
    → request_device db request ≡ ok dev
    → ShowsDevice db request
unfolding request_device
request_device_ok db request dev h =
    let (_, shown) =
      reject_ok (not request.tls) device_unauthorized
        (authenticate_peer db request.peer_certificates) h in
    let (c, one, valid) = one_peer db request.peer_certificates dev shown in
    let (trusted, known, same) = authenticate_ok db c dev valid in
    (c, dev, one, trusted, known, same)

one_header :
    (headers : List String) (token : String)
    → bearer_token headers ≡ ok token
    → (header : String) × (headers ≡ header ∷ []) × (bearer_token (header ∷ []) ≡ ok token)
one_header [] token h = absurd (err_ne_ok refl h)
one_header (header ∷ []) token h = (header, refl, h)
one_header (_ ∷ _ ∷ _) token h = absurd (err_ne_ok refl h)

request_user_ok :
    (service : Service) (now : ℕ) (db : Db) (request : Request) (r : User × String)
    → request_user service now db request ≡ ok r
    → ShowsUser service now db request
unfolding request_user
request_user_ok service now db request r h =
    let (token, e, h1) =
      bind_ok (bearer_token request.authorization)
        (λ token. authenticate_user service token now db >>= λ user. ok (user, token)) h in
    let (user, f, _) =
      bind_ok (authenticate_user service token now db) (λ user. ok (user, token)) h1 in
    let (header, one, same) = one_header request.authorization token e in
    (header, token, user, one, same, f)

-- A failure that leaves all but the budgets as they were.
pub record IsRefused (s : Server) (r : Answer × Server) : Type 0 where
  pub failure : Failure
  pub answer : r.0 ≡ failed failure
  pub same_db : r.1.db ≡ s.db
  pub same_sessions : r.1.sessions ≡ s.sessions
  pub same_hub : r.1.hub ≡ s.hub

module _ (d : Deployment) where
  -- What a request that is carried out has shown.
  abbrev pub IsGranted : Moment → Server → Request → Type 0
  IsGranted m s request =
      (call : Operation) × (params : Map String) × (request.tls ≡ true)
      × ((request.raw_query =s= "") ≡ true)
      × (route request.method request.path ≡ some (call, params))
      × MayCall d.service m.now s.db request call

  routed_guarded :
      (found : Option (Operation × Map String)) (request : Request) (m : Moment) (s : Server)
      → IsRefused s (routed d found request m s)
        ⊎ ((call : Operation) × (params : Map String) × (found ≡ some (call, params))
            × MayCall d.service m.now s.db request call)
  unfolding routed respond
  routed_guarded none request m s = inl (record {
    failure = record { status = 404; code = "p2p.unknown_operation" };
    answer = refl;
    same_db = refl;
    same_sessions = refl;
    same_hub = refl;
  })
  routed_guarded (some (by_anyone call, params)) request m s =
      inr (by_anyone call, params, refl, tt)
  routed_guarded (some (by_user call, params)) request m s =
      elim (Result-cases (request_user d.service m.now s.db request)) [
        | inl (c, e) ↦ inl (
            rw e (record {
              failure = write_error (error_text d.foreign c);
              answer = refl;
              same_db = refl;
              same_sessions = refl;
              same_hub = refl;
            }))
        | inr (r, e) ↦
            inr (by_user call, params, refl, request_user_ok d.service m.now s.db request r e)
      ]
  routed_guarded (some (by_device call, params)) request m s =
      elim (Result-cases (request_device s.db request)) [
        | inl (c, e) ↦ inl (
            rw e (record {
              failure = write_error (error_text d.foreign c);
              answer = refl;
              same_db = refl;
              same_sessions = refl;
              same_hub = refl;
            }))
        | inr (dev, e) ↦ inr (by_device call, params, refl, request_device_ok s.db request dev e)
      ]

  admission_cases :
      (request : Request) (within : Bool)
      → ((failure : Failure) × (admission request within ≡ some (failed failure)))
        ⊎ ((admission request within ≡ none)
            × (request.tls ≡ true)
            × ((request.raw_query =s= "") ≡ true))
  admission_cases request false = inl (_, refl)
  admission_cases request true = elim (Bool-cases request.tls) [
    | inr e ↦ inl (record { status = 403; code = "p2p.tls_required" }, rw e refl)
    | inl e ↦ elim (Bool-cases (request.raw_query =s= "")) [
      | inr f ↦ inl (record { status = 400; code = "p2p.invalid_request" }, rw (e, f) refl)
      | inl f ↦ inr (rw (e, f) refl, e, f)
    ]
  ]

  -- A request is refused with a failure that leaves the tables, the sessions and the hub as they
  -- were, or it came over TLS without a query, met a route and showed what its group asks:
  -- nothing for a public operation, registration and login among them, the one bearer token of a
  -- session of an enabled account for an account's, and for a device's one trusted certificate
  -- whose key is that of the live device that it names.
  pub serve-guarded :
      (request : Request) (m : Moment) (s : Server)
      → IsRefused s (serve d request m s) ⊎ IsGranted m s request
  unfolding serve
  serve-guarded request m s =
      let spent = budgeted request.remote_ip m.now s.budget in
      elim (admission_cases request spent.0) [
        | inl (failure, e) ↦ inl (
            rw e (record {
              failure = failure;
              answer = refl;
              same_db = refl;
              same_sessions = refl;
              same_hub = refl;
            }))
        | inr (e, tls, plain) ↦
            elim (routed_guarded (route request.method request.path) request m
              (record s { budget = spent.1 })) [
                | inl refused ↦ inl (
                    rw e (record {
                      failure = refused.failure;
                      answer = refused.answer;
                      same_db = refused.same_db;
                      same_sessions = refused.same_sessions;
                      same_hub = refused.same_hub;
                    }))
                | inr (call, params, found, may) ↦ inr (call, params, tls, plain, found, may)
              ]
      ]
