-- ===== src/Slack.antt =====
-- The persistent connection to Slack: `runSlack`, `readSlackUntilClose` and their helpers in
-- cmd/egress-broker/registry.go, over `Read` of cmd/egress-broker/realslack.go, and
-- the dialer there.
pub mod Loop
pub mod Backoff
pub mod Events
pub mod Acks
pub mod Dial
