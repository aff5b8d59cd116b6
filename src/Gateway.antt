-- ===== src/Gateway.antt =====
-- internal/gateway/gateway.go: Hub has the set of clients, Whole what the clients are sent.
pub mod Hub
pub mod Whole
pub mod Clients
pub mod Replay
pub mod Resume
