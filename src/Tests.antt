-- ===== src/Tests.antt =====
-- The theorems at concrete inputs: a toy service, small tables, short histories.
mod Toy
mod Histories
mod Accounts
mod Devices
mod Connections
mod Signals
mod Relays
mod Wire
mod Calls
mod Settings
mod Requests
mod Disk
pub mod Rights
