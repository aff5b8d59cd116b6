-- ===== src/Consumer.antt =====
-- internal/consumer: the consumer of the log. State holds what it works on; Backoff, Refuse, One and
-- Batch the functions of consumer.go and deadletter.go.
pub mod State
pub mod Backoff
pub mod Refuse
pub mod One
pub mod Batch
pub mod Ends
pub mod Grows
pub mod Handled
pub mod Sound
pub mod Groups
pub mod Prefix
pub mod Commits
pub mod Waits
pub mod Ledger
pub mod Recovers
pub mod Run
pub mod Loop
