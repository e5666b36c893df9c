-- ===== src/Store.antt =====
-- The PostgreSQL tables of prisma/schema.prisma that a game uses, as lists of rows, and a
-- transaction on them (src/modules/persistence/transaction.service.ts). Identifiers are only
-- compared, so they are numbers. The enumerations hold what the CHECK constraints of the migration
-- admit. Times are milliseconds.
pub mod Rows
pub mod Tables
pub mod Tx
pub mod LockedClock
pub mod Codec
pub mod Loading
pub mod Soundness
pub mod Seats
