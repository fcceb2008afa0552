-- ===== src/Config/Ports.antt =====
-- internal/coordinator/config.go and turn.go: the ports that an accepted configuration gives the
-- relay.
use dshker_server.Config.{Config, Parsers, TurnRelay, port_range, turn_relay, validate}
use dshker_server.Config.Valid.{validate_ok, validate_relay_ok}
use dshker_server.Prelude.{
  Bool, Bool-cases, Option, String, arith, false, inl, inr, is_some, none, not, ok, refl, some, sym,
  true, ℕ, ◌&&◌, ◌==◌, ◌=s=◌, ◌||◌, ◌∙◌, ◌≡◌, ◌≤◌, ◌⊎◌,
}
use dshker_server.Prelude.Int.{is_zero, ltb_ℤ, negsuc, pos, ℤ}
use dshker_server.Relay.Ports.{PortRange, allocate, validate_range}
use dshker_server.Relay.Ports.Walk.{allocate_complete}

-- Two ports that pass the check are both zero, or a range of ports.
range_of :
    (lo hi : ℤ)
    → ((not (is_zero hi) || not (is_zero lo))
        && (ltb_ℤ lo (pos 1) || ltb_ℤ (pos 65535) hi || ltb_ℤ hi lo))
      ≡ false
    → ((lo ≡ pos 0) × (hi ≡ pos 0))
      ⊎ ((m n : ℕ) × (lo ≡ pos m) × (hi ≡ pos n) × (1 ≤ m) × (m ≤ n) × (n ≤ 65535))
range_of (negsuc a) (negsuc b) h = absurd (ground arith)
range_of (negsuc a) (pos n) h = absurd (ground arith)
range_of (pos m) (negsuc b) h = absurd (ground arith)
range_of (pos m) (pos n) h = elim (Bool-cases (m == 0 && n == 0)) [
  | inl e ↦ inl (ground arith, ground arith)
  | inr e ↦ inr (m, n, refl, refl, ground arith, ground arith, ground arith)
]

port_range-none : (relay : TurnRelay) → relay.min_port ≡ pos 0 → port_range relay ≡ none
port_range-none relay e = rw e refl

port_range-some :
    (relay : TurnRelay) (m n : ℕ)
    → relay.min_port ≡ pos m
    → relay.max_port ≡ pos n
    → 1 ≤ m
    → m ≤ n
    → port_range relay
      ≡ some (record { relay_address = relay.public_ip; min_port = m; max_port = n })
port_range-some relay m n e f one le = rw (e, f) (ground arith)

module _ (parsers : Parsers) where
  enabled_ip :
      (c : Config)
      → (c.turn_shared_secret =s= "") ≡ false
      → is_some (parsers.parse_ip c.relay_public_ip) ≡ true
      → is_some (turn_relay parsers c).public_ip ≡ true
  unfolding turn_relay
  enabled_ip c on ip = rw on ip

  range_valid :
      (ip : Option String) (m n : ℕ)
      → is_some ip ≡ true
      → 1 ≤ m
      → m ≤ n
      → n ≤ 65535
      → validate_range (record { relay_address = ip; min_port = m; max_port = n }) ≡ ok tt
  unfolding validate_range
  range_valid ip m n there one le most = ground arith

  -- The allocator of a relay that finds a port in its range where one is free.
  pub record Allocates (c : Config) (g : PortRange) : Type 0 where
    pub chosen : port_range (turn_relay parsers c) ≡ some g
    pub valid : validate_range g ≡ ok tt
    pub low : c.relay_port_min ≡ pos g.min_port
    pub high : c.relay_port_max ≡ pos g.max_port
    pub finds :
        (bind_one : ℕ → Bool) (requested nanosecond free : ℕ)
        → g.min_port ≤ free
        → free ≤ g.max_port
        → bind_one free ≡ true
        → (port : ℕ) × (allocate bind_one g requested nanosecond ≡ ok port)
          × (g.min_port ≤ port)
          × (port ≤ g.max_port)
          × (bind_one port ≡ true)

  allocates :
      (bind_one : ℕ → Bool) (g : PortRange) (requested nanosecond free : ℕ)
      → g.min_port ≤ g.max_port
      → g.min_port ≤ free
      → free ≤ g.max_port
      → bind_one free ≡ true
      → (port : ℕ) × (allocate bind_one g requested nanosecond ≡ ok port)
        × (g.min_port ≤ port)
        × (port ≤ g.max_port)
        × (bind_one port ≡ true)
  allocates bind_one g requested nanosecond free le low high open_port =
      elim (allocate_complete bind_one g requested nanosecond le) [
        | inl found ↦ found
        | inr (_, none_free) ↦ absurd (true_ne_false (sym open_port ∙ none_free free low high))
      ]
    where
      true_ne_false : ¬ (true ≡ false)
      true_ne_false e = cc

  -- A configuration with a relay that `Validate` accepts names no ports, and then any port is
  -- taken, or it names a range that the allocator's own check accepts and in which an allocation
  -- finds a free port whenever there is one.
  pub validate-Allocates :
      (c : Config)
      → validate parsers c ≡ ok tt
      → (c.turn_shared_secret =s= "") ≡ false
      → ((port_range (turn_relay parsers c) ≡ none)
          × (c.relay_port_min ≡ pos 0)
          × (c.relay_port_max ≡ pos 0))
        ⊎ ((g : PortRange) × Allocates c g)
  unfolding turn_relay
  validate-Allocates c h on =
      let relay = validate_relay_ok parsers c ((validate_ok parsers c h).relay on) in
      elim (range_of c.relay_port_min c.relay_port_max relay.ports) [
        | inl (lo, hi) ↦ inl (port_range-none (turn_relay parsers c) lo, lo, hi)
        | inr (m, n, lo, hi, one, le, most) ↦ inr (
          record { relay_address = (turn_relay parsers c).public_ip; min_port = m; max_port = n },
          record {
            chosen = port_range-some (turn_relay parsers c) m n lo hi one le;
            valid =
                range_valid (turn_relay parsers c).public_ip m n (enabled_ip c on relay.ip) one le
                  most;
            low = lo;
            high = hi;
            finds = λ bind_one requested nanosecond free.
                allocates bind_one
                  (record {
                    relay_address = (turn_relay parsers c).public_ip;
                    min_port = m;
                    max_port = n;
                  })
                  requested nanosecond free le;
          },
        )
      ]
