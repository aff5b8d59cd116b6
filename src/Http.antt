-- ===== src/Http.antt =====
-- internal/platform/httpserver/httpserver.go: New, and the readiness checks.
pub mod RequestId
pub mod Checks
pub mod Collect
pub mod Agree
