-- ===== src/Control.antt =====
-- cmd/egress-broker/ateapi.go: the client of substrate's Control service.
pub mod Pages
pub mod Chain
pub mod Resume
pub mod Retry
