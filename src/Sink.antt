-- ===== src/Sink.antt =====
-- internal/sink: the writes and reads of the database. Tables and Transaction hold the schema and
-- internal/platform/db; Apply, DeadLetters and Views the package's own functions.
pub mod Tables
pub mod Transaction
pub mod Apply
pub mod History
pub mod Rows
pub mod Consistent
pub mod Once
pub mod Tops
pub mod Newest
pub mod Late
pub mod Ledger
pub mod DeadLetters
pub mod Refusals
pub mod Views
pub mod Resume
