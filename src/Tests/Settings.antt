-- ===== src/Tests/Settings.antt =====
-- A configuration with a relay.
use dshker_server.Config.{
  Config, Parsers, is_port, port_range, turn_listen, turn_relay, turn_url, valid_endpoint, validate,
  validate_relay,
}
use dshker_server.Config.Ports.{Allocates, validate-Allocates}
use dshker_server.Config.Urls.{turn_url-split}
use dshker_server.Prelude.{
  List, false, if◌then◌else◌, none, ok, refl, some, true, ℕ, ◌=s=◌, ◌≡◌, ◌⊎◌,
}
use dshker_server.Prelude.Int.{pos}
use dshker_server.Prelude.Text.{codes}
use dshker_server.Protocol.Addresses.{
  atoi, is_empty, join_host_port, split_first, split_host_port, split_last,
}
use dshker_server.Relay.Ports.{PortRange}

abbrev pub settings : Config
settings = record {
  https_origin = "https://hub.example:443";
  wss_url = "wss://hub.example:443/v1/signals";
  stun_address = "hub.example:3478";
  https_listen = "0.0.0.0:443";
  stun_listen = "[::]:3478";
  tls_cert_path = "/etc/d/cert.pem";
  tls_key_path = "/etc/d/key.pem";
  database_path = "/var/d/db";
  identity_key_path = "/var/d/key";
  turn_shared_secret = "00112233445566778899aabbccddeeff";
  turn_listen = "";
  relay_public_ip = "192.0.2.7";
  relay_port_min = pos 8000;
  relay_port_max = pos 8999;
}

abbrev pub parsers : Parsers
parsers = record {
  parse_url = λ url. some (record {
    scheme = if url =s= "https://hub.example:443" then "https" else "wss";
    host = "hub.example:443";
    has_user = false;
    path = if url =s= "https://hub.example:443" then "" else "/v1/signals";
    raw_query = "";
    fragment = "";
  });
  parse_ip = λ text. some text;
}

pub settings_valid : validate parsers settings ≡ ok tt
unfolding validate validate_relay valid_endpoint split_host_port split_last split_first atoi
    turn_listen
settings_valid = refl

validate-Allocates_example :
    ((port_range (turn_relay parsers settings) ≡ none) × (pos 8000 ≡ pos 0) × (pos 8999 ≡ pos 0))
    ⊎ ((g : PortRange) × Allocates parsers settings g)
validate-Allocates_example = validate-Allocates parsers settings settings_valid refl

turn_url-split_example :
    (host other port stun_port : List ℕ) × (split_host_port (codes "hub.example:3478")
      ≡ some (host, stun_port))
    × (split_host_port (codes (turn_listen settings)) ≡ some (other, port))
    × (split_host_port (turn_url settings) ≡ some (host, port))
    × (is_empty host ≡ false)
    × (is_port (atoi port) ≡ true)
turn_url-split_example = turn_url-split parsers settings settings_valid refl

turn_url_run : turn_url settings ≡ codes "hub.example:3478"
unfolding turn_url turn_listen split_host_port split_last split_first join_host_port
turn_url_run = refl
