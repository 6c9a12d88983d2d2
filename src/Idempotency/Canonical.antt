-- ===== src/Idempotency/Canonical.antt =====
-- What write_canonical keeps of a payload: all but the order of the entries of its objects.
pub mod Order
pub mod Normal
pub mod Printing
pub mod Scalars
pub mod Reading
pub mod Payloads
