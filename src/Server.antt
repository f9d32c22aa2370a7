-- ===== src/Server.antt =====
-- cmd/egress-broker/server.go: the actor-facing HTTP handlers.
pub mod Tokens
pub mod Tickets
pub mod Locate
pub mod Open
pub mod Headers
pub mod Forward
pub mod Passing
pub mod Socket
pub mod Pings
pub mod Entry
pub mod Admission
pub mod Wire
pub mod StandIn
