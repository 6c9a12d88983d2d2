-- ===== src/Store.antt =====
-- crates/pulsestream-store/src/lib.rs and migrations/0001_create_events.sql: the `events` table and
-- the statements that the store runs on it. PostgreSQL runs each statement or transaction as one
-- step on the table; a failure of the database is an argument of the operation.
pub mod Errors
pub mod Schema
pub mod Trigger
pub mod Admit
pub mod Lookup
pub mod Claim
pub mod Complete
pub mod Invariant
pub mod History
pub mod Leases
pub mod Processed
pub mod Stale
pub mod Settled
