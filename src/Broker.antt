-- ===== src/Broker.antt =====
-- The whole process of cmd/egress-broker: the handlers of server.go and the sessions of all actors
-- in registry.go, each with its goroutines.
pub mod State
pub mod Steps
pub mod Moves
pub mod Separate
pub mod Kept
pub mod Backed
pub mod Callers
pub mod Owned
pub mod Starts
pub mod Reached
pub mod Presents
pub mod Owners
pub mod Told
pub mod Loops
pub mod Leads
pub mod Asks
pub mod Wakes
pub mod Unlocks
pub mod Fetches
pub mod Views
pub mod Opens
pub mod Enters
