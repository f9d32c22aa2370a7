-- ===== src/System.antt =====
-- The goroutines of one session in cmd/egress-broker/registry.go and server.go: the handlers of the
-- actor's connections, the Slack read loop and the timers, with the mutex of writers and what is
-- given to the connections.
pub mod State
pub mod Steps
pub mod Cases
pub mod Traces
pub mod Texts
pub mod Faithful
pub mod Given
pub mod Greeting
pub mod Polite
pub mod Regions
pub mod Hello
pub mod Runs
pub mod Mutex
pub mod Progress
pub mod Order
pub mod Refines
pub mod Alone
pub mod Delivery
