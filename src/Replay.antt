-- ===== src/Replay.antt =====
-- internal/replay/replay.go: reading the dead-letter queue and putting its events back on the log.
-- Queue has the store's reads and its update, Replayer the replays.
pub mod Queue
pub mod Replayer
pub mod Marks
pub mod States
