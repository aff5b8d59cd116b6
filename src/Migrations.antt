-- ===== src/Migrations.antt =====
-- internal/platform/migrations/migrations.go: Files has the embedded files and load, Status the
-- bookkeeping table, Up the transactions.
pub mod Files
pub mod Ordered
pub mod Origins
pub mod Status
pub mod Up
pub mod Steps
pub mod Whole
pub mod Listed
pub mod Progress
pub mod Once
pub mod Idle
