-- ===== src/Protocol.antt =====
-- The wire contract of internal/protocol: identifiers, leases, signals, peer frames.
pub mod Ids
pub mod Json
pub mod Service
pub mod Leases
pub mod Signals
pub mod Frames
pub mod Addresses
