-- ===== src/Topics.antt =====
-- internal/platform/broker/broker.go: EnsureTopics, and what it promises.
pub mod Ensure
pub mod Once
