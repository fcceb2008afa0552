-- ===== src/Tests/Relays.antt =====
-- The limiter and the port range at concrete inputs.
use dshker_server.Prelude.{
  Bool, List, [], arith, err, false, length, none, ok, refl, relay_port_exhausted, some, suc, true,
  zero, ℕ, ◌==◌, ◌∷◌, ◌≡◌, ◌≤◌, ◌⊎◌,
}
use dshker_server.Protocol.Ids.{Bytes}
use dshker_server.Relay.Limiter.{Limiter, allow}
use dshker_server.Relay.Limiter.Budget.{IsWithin, allow-IsWithin}
use dshker_server.Relay.Ports.{PortRange, allocate, walk}
use dshker_server.Relay.Ports.Walk.{allocate_complete}
use dshker_server.Relay.Stun.{
  Source, StunLibrary, Turn, packet, passes, reads_on, serve_stun, stun_response,
}
use dshker_server.Relay.Stun.Rate.{serve_stun-rate}
use dshker_server.Relay.Stun.Replies.{Replies, serve_stun-Replies}

abbrev fresh : Limiter
fresh = record { sources = []; global = record { at = none; count = 0 } }

fresh-IsWithin : IsWithin fresh
fresh-IsWithin = record { each = refl; all_of_them = omega arith; few = omega arith }

allow-IsWithin_example : IsWithin (allow "192.0.2.1" 10_000_000_000_000 fresh).1
allow-IsWithin_example = allow-IsWithin "192.0.2.1" 10_000_000_000_000 fresh fresh-IsWithin

-- The source is answered twenty times in a second, and no more.
abbrev repeat_allow : ℕ → Limiter → Limiter
repeat_allow zero l = l
repeat_allow (suc n) l = repeat_allow n (allow "192.0.2.1" 10_000_000_000_000 l).1

twenty_answers :
    ((allow "192.0.2.1" 10_000_000_000_000 (repeat_allow 19 fresh)).0 ≡ true)
    × ((allow "192.0.2.1" 10_000_000_000_000 (repeat_allow 20 fresh)).0 ≡ false)
    × ((allow "192.0.2.1" 10_001_000_000_000 (repeat_allow 20 fresh)).0 ≡ true)
unfolding allow
twenty_answers = (refl, refl, refl)

abbrev range : PortRange
range = record { relay_address = some "203.0.113.7"; min_port = 8000; max_port = 8003 }

-- Only 8001 is free.
abbrev only_one : ℕ → Bool
only_one port = port == 8001

allocate_runs : allocate only_one range 0 3 ≡ ok 8001
unfolding allocate walk
allocate_runs = refl

allocate_complete_example :
    ((port : ℕ) × (allocate only_one range 0 3 ≡ ok port)
      × (8000 ≤ port)
      × (port ≤ 8003)
      × (only_one port ≡ true))
    ⊎ ((allocate only_one range 0 3 ≡ err relay_port_exhausted)
        × ((port : ℕ) → 8000 ≤ port → port ≤ 8003 → only_one port ≡ false))
allocate_complete_example = allocate_complete only_one range 0 3 (omega arith)

-- A library that takes every datagram for a Binding request with nothing after its header.
abbrev toy_stun : StunLibrary
toy_stun = record {
  decode_message = λ bytes. some (record { is_binding_request = true; length = 0 });
  build_success = λ bytes source. some (source.port ∷ []);
}

abbrev header : Bytes
header = 0 ∷ 1 ∷ 0 ∷ 0 ∷ 33 ∷ 18 ∷ 164 ∷ 66 ∷ 0 ∷ 0 ∷ 0 ∷ 0 ∷ 0 ∷ 0 ∷ 0 ∷ 0 ∷ 0 ∷ 0 ∷ 0 ∷ 0 ∷ []

abbrev caller : Source
caller = record { ip = "192.0.2.1"; port = 40_000 }

abbrev asked : Bytes → Turn
asked bytes = record {
  now = 10_000_000_000_000;
  read = packet bytes caller;
  ended = false;
  written = true;
}

-- Two requests, and between them a datagram that is too short.
abbrev three_turns : List Turn
three_turns = asked header ∷ asked (0 ∷ 1 ∷ []) ∷ asked header ∷ []

serve_stun_runs :
    serve_stun toy_stun three_turns fresh
    ≡ (reads_on, (caller, 40_000 ∷ []) ∷ (caller, 40_000 ∷ []) ∷ [])
unfolding serve_stun passes stun_response allow
serve_stun_runs = refl

serve_stun-Replies_example : Replies toy_stun three_turns (serve_stun toy_stun three_turns fresh).1
serve_stun-Replies_example = serve_stun-Replies toy_stun three_turns fresh

serve_stun-rate_example : length (serve_stun toy_stun three_turns fresh).1 ≤ 2000
serve_stun-rate_example =
    serve_stun-rate toy_stun 10_000_000_000_000 three_turns fresh refl fresh-IsWithin
