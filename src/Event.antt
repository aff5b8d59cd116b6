-- ===== src/Event.antt =====
-- internal/event: the wire contract. The definitions stand in Types, Validate and Accept; what is
-- proved of them in the other children.
pub mod Float
pub mod Types
pub mod Validate
pub mod Accept
pub mod Bounds
pub mod RoundTrip
