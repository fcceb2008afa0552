-- ===== src/Relay.antt =====
-- internal/coordinator/stun.go and turn.go: the STUN socket and its budget, the ports of the relay.
pub mod Limiter
pub mod Ports
pub mod Stun
