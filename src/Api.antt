-- ===== src/Api.antt =====
-- internal/coordinator's server.go, signaling.go, pair_identity.go and user_api.go: where the HTTP
-- API joins the store, the sessions and the hub of WebSocket connections.
pub mod Errors
pub mod Requests
pub mod Routes
pub mod Hub
pub mod Views
pub mod Dial
pub mod Channel
pub mod Notice
pub mod Server
pub mod Public
pub mod Accounts
pub mod Devices
pub mod Calls
pub mod Serve
