-- ===== src/Tests/Rights.antt =====
-- Requests of a device and of an account, and what they leave alone.
use dshker_server.Api.Accounts.{perform_user}
use dshker_server.Api.Calls.{perform_device}
use dshker_server.Api.Requests.{Request, read_body, request_device, request_user}
use dshker_server.Api.Routes.{
  by_device, by_user, find_route, match_path, post_adopt, remove_network, route,
}
use dshker_server.Api.Serve.{new_server, routed, serve}
use dshker_server.Api.Serve.Isolation.{serve-IsConfined}
use dshker_server.Api.Serve.Tenancy.{serve-KeepsOthers}
use dshker_server.Api.Server.{Moment, Server, on_store, with_body}
use dshker_server.Prelude.{[], commit, map, ok, refl, some, true, ◌+◌, ◌∷◌, ◌≡◌}
use dshker_server.Prelude.Text.{◌+s+◌}
use dshker_server.Protocol.Json.{decode, members, unique_value}
use dshker_server.Relay.Limiter.{allow, new_limiter}
use dshker_server.Store.Bindings.{binding_owner, delete_network}
use dshker_server.Store.Certificates.{Certificate, authenticate}
use dshker_server.Store.History.Confined.{IsConfined}
use dshker_server.Store.History.Tenants.{KeepsOthers}
use dshker_server.Store.Networks.{network_owned}
use dshker_server.Store.PairActions.{adopt_all, adopt_network, collect_peers, insert_peer}
use dshker_server.Store.Pairing.{Device, adopt, device}
use dshker_server.Store.Schema.{NetworkRow, PairRow, user_enabled}
use dshker_server.Store.Users.{User, authenticate_user}
use dshker_server.Tests.Requests.{asks, deployment, full_house, moment, secret}
use dshker_server.Tests.Toy.{first_id, home, house, noon, second_id, toy}

abbrev first_certificate : Certificate
first_certificate = record {
  common_name = first_id;
  key = some (1 ∷ []);
  trusted = true;
  expires = noon + noon;
}

abbrev adoption : Request
adoption = asks "POST" ("v1" ∷ "adopt-network" ∷ []) [] (first_certificate ∷ [])

abbrev adopting : Moment
adopting = moment noon "d00000000000"

abbrev first_device : Device
first_device = record {
  id = first_id;
  user_id = "a00000000000";
  public_key = 1 ∷ [];
  name = "box";
  certificate = [];
}

adoption-route : route "POST" ("v1" ∷ "adopt-network" ∷ []) ≡ some (by_device post_adopt, [])
unfolding route match_path find_route
adoption-route = refl

adoption-shown : request_device house adoption ≡ ok first_device
unfolding request_device authenticate device user_enabled
adoption-shown = refl

-- The request makes a pair.
adoption-pairs :
    map (λ (p : PairRow). p.target) (serve deployment adoption adopting full_house).1.db.pairs
    ≡ second_id ∷ []
unfolding serve routed route match_path find_route request_device authenticate device user_enabled
    perform_device on_store adopt_network adopt_all collect_peers insert_peer adopt binding_owner
    allow new_limiter commit
adoption-pairs = refl

serve-IsConfined_example :
    IsConfined first_id house (serve deployment adoption adopting full_house).1.db
serve-IsConfined_example =
    serve-IsConfined deployment post_adopt [] adoption adopting full_house first_device
      adoption-route adoption-shown

-- Ann has logged in.
abbrev at_home : Server
at_home = record new_server {
  db = record house {
    user_sessions = record { hash = secret; user_id = "a00000000000"; expires = 20_000 } ∷ [];
  };
}

abbrev closing : Request
closing = asks "DELETE" ("v1" ∷ "networks" ∷ home ∷ []) (("Bearer " +s+ secret) ∷ []) []

abbrev ann_user : User
ann_user = record { id = "a00000000000"; username = "ann@example.org" }

closing-route :
    route "DELETE" ("v1" ∷ "networks" ∷ home ∷ [])
    ≡ some (by_user remove_network, ("networkId", home) ∷ [])
unfolding route match_path find_route
closing-route = refl

closing-shown : request_user toy noon at_home.db closing ≡ ok (ann_user, secret)
unfolding request_user authenticate_user
closing-shown = refl

-- The request deletes the network.
closing-deletes :
    map
      (λ (n : NetworkRow). n.deleted)
      (serve deployment closing (moment noon "") at_home).1.db.networks
    ≡ true ∷ []
unfolding serve routed route match_path find_route request_user authenticate_user user_enabled
    perform_user on_store with_body read_body decode unique_value members delete_network
    network_owned allow new_limiter commit
closing-deletes = refl

serve-KeepsOthers_example :
    KeepsOthers "a00000000000" at_home.db (serve deployment closing (moment noon "") at_home).1.db
serve-KeepsOthers_example =
    serve-KeepsOthers deployment remove_network (("networkId", home) ∷ []) closing (moment noon "")
      at_home ann_user secret closing-route closing-shown
