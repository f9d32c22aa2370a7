-- ===== src/Tls.antt =====
-- cmd/egress-broker/tlsmint.go: the certificates that the broker mints for its actors.
pub mod Minter
pub mod Leaves
pub mod Loading
