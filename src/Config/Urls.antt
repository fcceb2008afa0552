-- ===== src/Config/Urls.antt =====
-- internal/coordinator/config.go, `turnURL`: the address of the relay that clients are told.
use dshker_server.Config.{
  Config, Parsers, is_port, joined, turn_listen, turn_url, valid_endpoint, validate,
}
use dshker_server.Config.Valid.{validate_ok, validate_relay_ok}
use dshker_server.Prelude.{
  List, Option-cases, String, arith, false, inl, inr, ok, some, true, ℕ, ◌=s=◌, ◌≡◌,
}
use dshker_server.Prelude.Text.{codes}
use dshker_server.Protocol.Addresses.{atoi, is_empty, split_host_port}
use dshker_server.Protocol.Addresses.Splits.{
  split_host_port-IsClean, split_host_port-join_host_port,
}

valid_endpoint_parts :
    (address : String)
    → valid_endpoint address ≡ true
    → (host port : List ℕ) × (split_host_port (codes address) ≡ some (host, port))
      × (is_empty host ≡ false)
      × (is_port (atoi port) ≡ true)
unfolding valid_endpoint
valid_endpoint_parts address h = elim (Option-cases (split_host_port (codes address))) [
  | inl e ↦ absurd (ground arith)
  | inr ((host, port), e) ↦ (host, port, e, ground arith, ground arith)
]

joined-split :
    (s t host port other last : List ℕ)
    → split_host_port s ≡ some (host, port)
    → split_host_port t ≡ some (other, last)
    → split_host_port (joined (split_host_port s) (split_host_port t)) ≡ some (host, last)
joined-split s t host port other last e f =
    let first = split_host_port-IsClean s host port e in
    let second = split_host_port-IsClean t other last f in
    rw (e, f)
      (split_host_port-join_host_port host last (record {
        host_open = first.host_open;
        host_shut = first.host_shut;
        port_colon = second.port_colon;
        port_open = second.port_open;
        port_shut = second.port_shut;
      }))

-- With a relay that `Validate` accepts, the relay's URL splits again into the host of the STUN
-- address, which is not empty, and the port that the relay listens on, a number from 1 to 65535.
pub turn_url-split :
    (parsers : Parsers) (c : Config)
    → validate parsers c ≡ ok tt
    → (c.turn_shared_secret =s= "") ≡ false
    → (host other port stun_port : List ℕ) × (split_host_port (codes c.stun_address)
        ≡ some (host, stun_port))
      × (split_host_port (codes (turn_listen c)) ≡ some (other, port))
      × (split_host_port (turn_url c) ≡ some (host, port))
      × (is_empty host ≡ false)
      × (is_port (atoi port) ≡ true)
unfolding turn_url
turn_url-split parsers c h on =
    let valid = validate_ok parsers c h in
    let relay = validate_relay_ok parsers c (valid.relay on) in
    let (host, stun_port, e, full, _) = valid_endpoint_parts c.stun_address valid.stun in
    let (other, port, f, _, good) = valid_endpoint_parts (turn_listen c) relay.listen in
    (
      host,
      other,
      port,
      stun_port,
      e,
      f,
      joined-split (codes c.stun_address) (codes (turn_listen c)) host stun_port other port e f,
      full,
      good,
    )
