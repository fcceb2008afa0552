-- ===== src/Relay/Ports.antt =====
-- internal/coordinator/turn.go: the ports of relayed allocations.
pub mod Walk
use dshker_server.Prelude.{
  Bool, Option, Result, String, err, if◌then◌else◌, invalid_relay_port_range,
  invalid_relay_public_ip, is_some, leb, ltb, not, ok, reject, relay_port_exhausted, suc, zero, ℕ,
  ◌%◌, ◌&&◌, ◌+◌, ◌-◌, ◌>>=◌, ◌>>◌, ◌||◌,
}
use dshker_server.Store.History.Lifecycle.{then}

-- `portRangeAllocator`; the address is a name here.
pub record PortRange : Type 0 where
  pub relay_address : Option String
  pub min_port : ℕ
  pub max_port : ℕ

-- `Validate`
unfoldable pub validate_range : PortRange → Result (Unit {0})
validate_range g = do
  reject (not (is_some g.relay_address)) invalid_relay_public_ip
  reject (ltb g.min_port 1 || ltb 65535 g.max_port || ltb g.max_port g.min_port)
      invalid_relay_port_range

-- `bind port` is whether `bindOne` gets a socket on the port at this moment.
module _ (bind_one : ℕ → Bool) where
  -- The loop, at an offset with so many ports to go.
  unfoldable pub walk : PortRange → ℕ → ℕ → ℕ → Result ℕ
  walk g start offset zero = err relay_port_exhausted
  walk g start offset (suc rest) =
      let next = walk g start (offset + 1) rest in
      let port = g.min_port + (start + offset) % (g.max_port - g.min_port + 1) in
      if bind_one port then ok port else next

  -- The requested port, where it is in the range and free.
  abbrev pub takes_requested : PortRange → ℕ → Bool
  takes_requested g requested =
      leb g.min_port requested && leb requested g.max_port && bind_one requested

  -- `AllocatePacketConn`: the port of the socket. `nanosecond` is `time.Now().Nanosecond()`.
  unfoldable pub allocate : PortRange → ℕ → ℕ → Result ℕ
  allocate g requested nanosecond =
      if takes_requested g requested
      then ok requested
      else (let span = g.max_port - g.min_port + 1 in walk g (nanosecond % span) 0 span)
