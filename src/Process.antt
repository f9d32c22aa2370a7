-- ===== src/Process.antt =====
-- The processes: cmd/egress-broker/main.go and cmd/suspend-helper/main.go.
pub mod Helper
pub mod Parts
pub mod Broker
