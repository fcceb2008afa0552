-- ===== src/Store.antt =====
-- The SQLite store of internal/coordinator, one child for each file of the source.
pub mod Schema
pub mod Networks
pub mod Bindings
pub mod Users
pub mod Pairing
pub mod PairActions
pub mod Enrollment
pub mod Certificates
pub mod History
