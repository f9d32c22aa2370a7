-- ===== src/Session.antt =====
-- cmd/egress-broker/registry.go: one actor's session, as the regions of code that hold its mutex.
pub mod State
pub mod Ops
pub mod Sections
pub mod Frame
pub mod Cases
pub mod Outbox
pub mod Live
pub mod Refines
pub mod Runs
pub mod Kept
pub mod Ids
pub mod RandIds
pub mod Ascends
pub mod Sends
pub mod Sent
pub mod Written
pub mod Texts
pub mod Numbered
pub mod Once
pub mod Drain
pub mod Total
pub mod Latch
pub mod Idle
pub mod Forwards
pub mod Writer
