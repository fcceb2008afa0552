-- ===== src/Config.antt =====
-- internal/coordinator/config.go: the configuration, and what it has to satisfy.
pub mod Valid
pub mod Ports
pub mod Urls
use Prim.Native.String.{len}
use dshker_server.Prelude.{
  Bool, List, Option, Result, String, [], all, explicit_absolute_path_required, false,
  if◌then◌else◌, invalid_endpoint, invalid_https_origin, invalid_relay_port_range,
  invalid_relay_public_ip, invalid_turn_shared_secret, invalid_wss_endpoint, is_some, ltb, none,
  not, ok, or_fail, path_conflict, reject, some, ℕ, ◌&&◌, ◌=s=◌, ◌>>=◌, ◌>>◌, ◌||◌, ◌∷◌,
}
use dshker_server.Prelude.Int.{is_zero, ltb_ℤ, pos, pos_part, ℤ}
use dshker_server.Prelude.Text.{codes}
use dshker_server.Protocol.Addresses.{atoi, is_empty, is_rooted, join_host_port, split_host_port}
use dshker_server.Relay.Ports.{PortRange}

-- What `url.Parse` gives, as far as it is looked at; `has_user` is whether `User` is not nil.
pub record Url : Type 0 where
  pub scheme : String
  pub host : String
  pub has_user : Bool
  pub path : String
  pub raw_query : String
  pub fragment : String

-- `url.Parse`, and the address that `net.ParseIP` reads.
pub record Parsers : Type 0 where
  pub parse_url : String → Option Url
  pub parse_ip : String → Option String

pub record Config : Type 0 where
  pub https_origin : String
  pub wss_url : String
  pub stun_address : String
  pub https_listen : String
  pub stun_listen : String
  pub tls_cert_path : String
  pub tls_key_path : String
  pub database_path : String
  pub identity_key_path : String
  pub turn_shared_secret : String
  pub turn_listen : String
  pub relay_public_ip : String
  pub relay_port_min : ℤ
  pub relay_port_max : ℤ

abbrev pub is_origin : Url → Bool
is_origin u =
    u.scheme =s= "https"
    && not (u.host =s= "")
    && not u.has_user
    && u.path =s= ""
    && u.raw_query =s= ""
    && u.fragment =s= ""

abbrev pub is_wss : Url → Url → Bool
is_wss origin u =
    u.scheme =s= "wss"
    && u.host =s= origin.host
    && not u.has_user
    && u.path =s= "/v1/signals"
    && u.raw_query =s= ""
    && u.fragment =s= ""

abbrev pub is_port : Option ℤ → Bool
is_port none = false
is_port (some n) = not (ltb_ℤ n (pos 1)) && not (ltb_ℤ (pos 65535) n)

abbrev pub is_endpoint : Option (List ℕ × List ℕ) → Bool
is_endpoint none = false
is_endpoint (some (host, port)) = not (is_empty host) && is_port (atoi port)

unfoldable pub valid_endpoint : String → Bool
valid_endpoint address = is_endpoint (split_host_port (codes address))

-- `filepath.IsAbs` on a POSIX system.
abbrev pub is_abs : String → Bool
is_abs path = is_rooted (codes path)

abbrev pub endpoints_valid : Config → Bool
endpoints_valid c = all valid_endpoint (c.stun_address ∷ c.https_listen ∷ c.stun_listen ∷ [])

abbrev pub paths_absolute : Config → Bool
paths_absolute c =
    all is_abs (c.tls_cert_path ∷ c.tls_key_path ∷ c.database_path ∷ c.identity_key_path ∷ [])

abbrev pub paths_clash : Config → Bool
paths_clash c =
    c.database_path =s= c.identity_key_path
    || c.tls_cert_path =s= c.tls_key_path
    || c.identity_key_path =s= c.tls_key_path
    || c.database_path =s= c.tls_cert_path
    || c.database_path =s= c.tls_key_path
    || c.identity_key_path =s= c.tls_cert_path

-- `turnListen`
unfoldable pub turn_listen : Config → String
turn_listen c = if not (c.turn_listen =s= "") then c.turn_listen else c.stun_listen

abbrev pub ports_set : Config → Bool
ports_set c = not (is_zero c.relay_port_max) || not (is_zero c.relay_port_min)

abbrev pub ports_wrong : Config → Bool
ports_wrong c =
    ltb_ℤ c.relay_port_min (pos 1)
    || ltb_ℤ (pos 65535) c.relay_port_max
    || ltb_ℤ c.relay_port_max c.relay_port_min

-- `TurnRelay` of turn.go: the relay as the configuration asks for it.
pub record TurnRelay : Type 0 where
  pub shared_secret : String
  pub control_address : String
  pub public_ip : Option String
  pub min_port : ℤ
  pub max_port : ℤ

-- `Enabled`
abbrev pub enabled : TurnRelay → Bool
enabled relay = not (relay.shared_secret =s= "")

-- The part of `ServeTURN` that chooses the allocator: a range of ports, or else any port.
abbrev pub port_range : TurnRelay → Option PortRange
port_range relay =
    if ltb_ℤ (pos 0) relay.min_port && not (ltb_ℤ relay.max_port relay.min_port)
    then some (record {
      relay_address = relay.public_ip;
      min_port = pos_part relay.min_port;
      max_port = pos_part relay.max_port;
    })
    else none

-- `turnURL`, without the "turn:" in front: the host of the STUN address with the relay's port.
abbrev pub joined : Option (List ℕ × List ℕ) → Option (List ℕ × List ℕ) → List ℕ
joined none _ = []
joined (some _) none = []
joined (some (host, _)) (some (_, port)) = join_host_port host port

unfoldable pub turn_url : Config → List ℕ
turn_url c =
    joined (split_host_port (codes c.stun_address)) (split_host_port (codes (turn_listen c)))

module _ (parsers : Parsers) where
  -- The checks of `Validate` on the relay, where there is a shared secret.
  unfoldable pub validate_relay : Config → Result (Unit {0})
  validate_relay c = do
    reject (ltb (len c.turn_shared_secret) 32) invalid_turn_shared_secret
    reject (not (valid_endpoint (turn_listen c))) invalid_endpoint
    reject (c.relay_public_ip =s= "" || not (is_some (parsers.parse_ip c.relay_public_ip)))
        invalid_relay_public_ip
    reject (ports_set c && ports_wrong c) invalid_relay_port_range

  -- `Validate`
  unfoldable pub validate : Config → Result (Unit {0})
  validate c = do
    origin ← or_fail (parsers.parse_url c.https_origin) invalid_https_origin
    reject (not (is_origin origin)) invalid_https_origin
    wss ← or_fail (parsers.parse_url c.wss_url) invalid_wss_endpoint
    reject (not (is_wss origin wss)) invalid_wss_endpoint
    reject (not (endpoints_valid c)) invalid_endpoint
    reject (not (paths_absolute c)) explicit_absolute_path_required
    reject (paths_clash c) path_conflict
    if c.turn_shared_secret =s= "" then ok tt else validate_relay c

  -- `turnRelay`
  unfoldable pub turn_relay : Config → TurnRelay
  turn_relay c = record {
    shared_secret = c.turn_shared_secret;
    control_address = turn_listen c;
    public_ip = if c.turn_shared_secret =s= "" then none else parsers.parse_ip c.relay_public_ip;
    min_port = c.relay_port_min;
    max_port = c.relay_port_max;
  }
