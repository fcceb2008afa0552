-- ===== src/Api/Routes.antt =====
-- internal/coordinator/server.go, `routes`, and user_api.go, `userRoutes`: the table of routes.
use dshker_server.Prelude.{
  List, Map, Option, String, [], get, if◌then◌else◌, is_some, none, some, ◌&&◌, ◌++◌, ◌=s=◌, ◌∷◌,
}

-- The operations that anyone may call.
pub data PublicCall : Type 0 where
  get_health post_identity post_enroll post_join post_query post_recover : PublicCall
  post_register post_login : PublicCall

-- Those of an account, by its bearer token.
pub data UserCall : Type 0 where
  get_user post_logout get_networks post_network patch_network patch_limit : UserCall
  remove_network post_token get_devices get_network_devices post_binding : UserCall
  remove_binding get_network_pairs remove_pair : UserCall

-- Those of a device, by its certificate.
pub data DeviceCall : Type 0 where
  get_me get_pairs get_identity post_turn get_signals post_share post_heartbeat : DeviceCall
  post_invite post_adopt post_action post_renewal post_attempt post_lease post_end : DeviceCall

pub data Operation : Type 0 where
  by_anyone : PublicCall → Operation
  by_user : UserCall → Operation
  by_device : DeviceCall → Operation

-- A segment of a route: a text, or a parameter, `:name`.
pub data Segment : Type 0 where
  lit parameter : String → Segment

pub record Route : Type 0 where
  pub method : String
  pub pattern : List Segment
  pub operation : Operation

abbrev pub named : String → String → Option (Map String) → Option (Map String)
named name value none = none
named name value (some params) = if value =s= "" then none else some ((name, value) ∷ params)

-- The parameters of a path that a pattern fits.
unfoldable pub match_path : List Segment → List String → Option (Map String)
match_path [] [] = some []
match_path [] (_ ∷ _) = none
match_path (_ ∷ _) [] = none
match_path (lit fixed ∷ segments) (part ∷ parts) =
    let rest = match_path segments parts in if fixed =s= part then rest else none
match_path (parameter name ∷ segments) (part ∷ parts) = named name part (match_path segments parts)

abbrev pub with_params : Operation → Option (Map String) → Option (Operation × Map String)
with_params operation none = none
with_params operation (some params) = some (operation, params)

-- The routes do not overlap, so the order of the table does not matter.
unfoldable pub find_route : List Route → String → List String → Option (Operation × Map String)
find_route [] method path = none
find_route (r ∷ rs) method path =
    let rest = find_route rs method path in
    let found = match_path r.pattern path in
    if r.method =s= method && is_some found then with_params r.operation found else rest

-- `c.Param`
abbrev pub param_or_empty : Option String → String
param_or_empty none = ""
param_or_empty (some value) = value

abbrev pub param : String → Map String → String
param name params = param_or_empty (get name params)

abbrev pub at : String → List Segment → Operation → Route
at method pattern operation = record {
  method = method;
  pattern = lit "v1" ∷ pattern;
  operation = operation;
}

abbrev networks : List Segment → List Segment
networks rest = lit "networks" ∷ parameter "networkId" ∷ rest

abbrev pub public_routes : List Route
public_routes =
    record {
      method = "GET";
      pattern = lit "health" ∷ lit "https" ∷ [];
      operation = by_anyone get_health;
    }
    ∷ at "POST" (lit "identity" ∷ []) (by_anyone post_identity)
    ∷ at "POST" (lit "enroll" ∷ []) (by_anyone post_enroll)
    ∷ at "POST" (lit "network" ∷ lit "join" ∷ []) (by_anyone post_join)
    ∷ at "POST" (lit "enrollment-query" ∷ []) (by_anyone post_query)
    ∷ at "POST" (lit "recover-certificate" ∷ []) (by_anyone post_recover)
    ∷ at "POST" (lit "register" ∷ []) (by_anyone post_register)
    ∷ at "POST" (lit "login" ∷ []) (by_anyone post_login)
    ∷ []

abbrev pub user_routes : List Route
user_routes =
    at "GET" (lit "user" ∷ []) (by_user get_user)
    ∷ at "POST" (lit "logout" ∷ []) (by_user post_logout)
    ∷ at "GET" (lit "networks" ∷ []) (by_user get_networks)
    ∷ at "POST" (lit "networks" ∷ []) (by_user post_network)
    ∷ at "PATCH" (networks []) (by_user patch_network)
    ∷ at "PATCH" (networks (lit "limit" ∷ [])) (by_user patch_limit)
    ∷ at "DELETE" (networks []) (by_user remove_network)
    ∷ at "POST" (networks (lit "enrollment-tokens" ∷ [])) (by_user post_token)
    ∷ at "GET" (lit "devices" ∷ []) (by_user get_devices)
    ∷ at "GET" (networks (lit "devices" ∷ [])) (by_user get_network_devices)
    ∷ at "POST" (networks (lit "devices" ∷ [])) (by_user post_binding)
    ∷ at "DELETE" (networks (lit "devices" ∷ parameter "deviceId" ∷ [])) (by_user remove_binding)
    ∷ at "GET" (networks (lit "pairs" ∷ [])) (by_user get_network_pairs)
    ∷ at "DELETE" (networks (lit "pairs" ∷ parameter "pairId" ∷ [])) (by_user remove_pair)
    ∷ []

abbrev pub device_routes : List Route
device_routes =
    at "GET" (lit "me" ∷ []) (by_device get_me)
    ∷ at "GET" (lit "pairs" ∷ []) (by_device get_pairs)
    ∷ at "GET" (lit "pairs" ∷ parameter "pairId" ∷ lit "identity" ∷ []) (by_device get_identity)
    ∷ at "POST" (lit "turn-credentials" ∷ []) (by_device post_turn)
    ∷ at "GET" (lit "signals" ∷ []) (by_device get_signals)
    ∷ at "POST" (lit "share" ∷ []) (by_device post_share)
    ∷ at "POST" (lit "heartbeat" ∷ []) (by_device post_heartbeat)
    ∷ at "POST" (lit "invite" ∷ []) (by_device post_invite)
    ∷ at "POST" (lit "adopt-network" ∷ []) (by_device post_adopt)
    ∷ at "POST" (lit "pair-action" ∷ []) (by_device post_action)
    ∷ at "POST" (lit "renew-certificate" ∷ []) (by_device post_renewal)
    ∷ at "POST" (lit "attempt" ∷ []) (by_device post_attempt)
    ∷ at "POST" (lit "lease" ∷ []) (by_device post_lease)
    ∷ at "POST" (lit "end" ∷ []) (by_device post_end)
    ∷ []

abbrev pub route_table : List Route
route_table = public_routes ++ user_routes ++ device_routes

unfoldable pub route : String → List String → Option (Operation × Map String)
unfolding match_path find_route
route method path = find_route route_table method path
