-- ===== src/Tests/Requests.antt =====
-- Requests to a server, from the first account to a device's certificate.
use dshker_server.Api.Accounts.{perform_user}
use dshker_server.Api.Errors.{printed_code, write_error}
use dshker_server.Api.Errors.Shown.{IsShowable, write_error-IsShowable}
use dshker_server.Api.Hub.{disconnect}
use dshker_server.Api.Public.{perform_public}
use dshker_server.Api.Requests.{Bodies, Request, read_body, request_user}
use dshker_server.Api.Routes.{find_route, match_path, route}
use dshker_server.Api.Serve.{Event, arrives, leaves, new_server, react, react_all, routed, serve}
use dshker_server.Api.Serve.Guards.{IsGranted, IsRefused, serve-guarded}
use dshker_server.Api.Serve.Machine.{serve-Steps}
use dshker_server.Api.Serve.Sound.{IsSound, new_server-IsSound}
use dshker_server.Api.Serve.Steps.{Steps}
use dshker_server.Api.Server.{Deployment, Moment, Server, on_store, with_body}
use dshker_server.Prelude.{
  List, String, [], arith, commit, false, map, none, ok, refl, some, true, ℕ, ◌+◌, ◌∷◌, ◌≡◌, ◌≢◌,
  ◌⊎◌,
}
use dshker_server.Prelude.Int.{pos}
use dshker_server.Prelude.Text.{◌+s+◌}
use dshker_server.Protocol.Ids.{minute, second, valid_name}
use dshker_server.Protocol.Json.{decode, members, opens, shuts, unique_value}
use dshker_server.Protocol.Signals.{Signal}
use dshker_server.Relay.Limiter.{allow, new_limiter}
use dshker_server.Store.Certificates.{Certificate}
use dshker_server.Store.Networks.{create_network}
use dshker_server.Store.Schema.{NetworkRow, user_enabled}
use dshker_server.Store.Users.{authenticate_user, create_user, email_matches, login}
use dshker_server.Tests.Settings.{parsers, settings}
use dshker_server.Tests.Signals.{codec}
use dshker_server.Tests.Toy.{first_id, home, house, noon, toy}

abbrev plain_bodies : Bodies
plain_bodies = record {
  tokens = λ body. opens true ∷ shuts ∷ [];
  fields = λ body. some ("email" ∷ "password" ∷ "username" ∷ "name" ∷ []);
  strict_text = λ name body. some "home";
  strict_nothing = λ body. some tt;
  strict_limit = λ body. some (pos 20);
  strict_login = λ body. some (record { username = "ann@example.org"; password = "correct horse" });
  strict_register = λ body. some (record { email = "ann@example.org"; password = "correct horse" });
  strict_enrollment = λ body. none;
  strict_join = λ body. none;
  strict_query = λ body. none;
  strict_recovery = λ body. none;
  strict_renewal = λ body. none;
  strict_heartbeat = λ body. none;
  strict_action = λ body. none;
  strict_begin = λ body. none;
  strict_lease = λ body. none;
  strict_share = λ body. none;
  decode_base64 = λ code. none;
}

abbrev pub deployment : Deployment
deployment = record {
  service = toy;
  ca = [];
  bodies = plain_bodies;
  parsers = parsers;
  config = settings;
  foreign = λ c. "driver: no such table";
  credentials = λ secret id now. ok (id, secret);
  encode_lease = λ lease. lease.attempt_id;
  encode_revoked = λ pair. pair.id;
  encode_ready = λ id. "ready";
  accepts = λ request. true;
}

abbrev pub asks : String → List String → List String → List Certificate → Request
asks method path authorization certificates = record {
  remote_ip = some "198.51.100.1";
  tls = true;
  peer_certificates = certificates;
  raw_query = "";
  method = method;
  path = path;
  authorization = authorization;
  origin = "";
  content_type = "application/json";
  body = some (b'{' ∷ b'}' ∷ []);
}

abbrev pub secret : String
secret = "0123456789abcdef0123456789abcdef0123456789abcdef0123456789abcdef"

abbrev pub moment : ℕ → String → Moment
moment now id = record { now = now; id = id; secret = secret; ids = λ n. id; busy = false }

abbrev signing_up : List (Moment × Event)
signing_up =
    (moment noon "a00000000000", arrives (asks "POST" ("v1" ∷ "register" ∷ []) [] []))
    ∷ (moment (noon + second) "", arrives (asks "POST" ("v1" ∷ "login" ∷ []) [] []))
    ∷ (
      moment (noon + second) home,
      arrives (asks "POST" ("v1" ∷ "networks" ∷ []) (("Bearer " +s+ secret) ∷ []) []),
    )
    ∷ (moment (noon + minute) "", leaves first_id)
    ∷ []

encode_offer : Signal → String
encode_offer signal = signal.message_id

signed_up :
    map
      (λ (n : NetworkRow). n.id)
      (react_all deployment codec encode_offer new_server signing_up).db.networks
    ≡ home ∷ []
unfolding react_all react serve routed route match_path find_route perform_public perform_user
    with_body on_store read_body decode unique_value members create_user login request_user
    authenticate_user create_network valid_name allow new_limiter email_matches user_enabled commit
    disconnect
signed_up = refl

new_server-IsSound_example :
    IsSound (noon + minute) (react_all deployment codec encode_offer new_server signing_up)
new_server-IsSound_example =
    new_server-IsSound deployment codec encode_offer signing_up
      (omega arith, (omega arith, (omega arith, (omega arith, tt))))

abbrev pub full_house : Server
full_house = record new_server { db = house }

abbrev lookout : Request
lookout = asks "GET" ("v1" ∷ "me" ∷ []) [] []

serve-guarded_example :
    IsRefused full_house (serve deployment lookout (moment noon "") full_house)
    ⊎ IsGranted deployment (moment noon "") full_house lookout
serve-guarded_example = serve-guarded deployment lookout (moment noon "") full_house

serve-Steps_example :
    Steps toy codec noon full_house (serve deployment lookout (moment noon "") full_house).1
serve-Steps_example = serve-Steps deployment codec lookout (moment noon "") full_house

write_error-IsShowable_example :
    IsShowable (write_error "open /var/d/key: denied").code
    × IsShowable (printed_code "open /var/d/key: denied")
    × (IsShowable "open /var/d/key: denied"
        → ((write_error "open /var/d/key: denied").code ≡ "open /var/d/key: denied")
          × (printed_code "open /var/d/key: denied" ≡ "open /var/d/key: denied")
          × ((write_error "open /var/d/key: denied").status ≢ 500))
    × (¬ IsShowable "open /var/d/key: denied"
        → (write_error "open /var/d/key: denied"
            ≡ record { status = 500; code = "p2p.internal_error" })
          × (printed_code "open /var/d/key: denied" ≡ "p2p.operation_failed"))
write_error-IsShowable_example = write_error-IsShowable "open /var/d/key: denied"
