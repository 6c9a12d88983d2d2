-- ===== src/Store/Errors.antt =====
-- StoreError, the classification of sqlx's errors, and how a statement may fail.
use pulse_stream.Common.{
  Bool, true, false, ◌||◌, Text, codes, starts_with, text_eq, Option, none, some, String, Result,
  ok, err, if◌then◌else◌,
}

-- The variants of `sqlx::Error` that the code tells apart; a database error has an SQLSTATE code.
pub data SqlxError : Type 0 where
  io tls protocol pool_timed_out pool_closed worker_crashed : SqlxError
  database_error : Option Text → SqlxError
  other : SqlxError

pub data StoreError : Type 0 where
  unavailable database : SqlxError → StoreError
  migration : StoreError
  inconsistent : String → StoreError
  invalid_config : StoreError

-- `StoreError::is_unavailable`.
unfoldable pub is_unavailable : StoreError → Bool
is_unavailable (unavailable e) = true
is_unavailable (database e) = false
is_unavailable migration = false
is_unavailable (inconsistent m) = false
is_unavailable invalid_config = false

unfoldable pub is_outage_code : Text → Bool
is_outage_code code =
    starts_with code (codes "08") || starts_with code (codes "57P") || text_eq code (codes "53300")

unfoldable pub is_outage : SqlxError → Bool
unfolding is_outage_code
is_outage io = true
is_outage tls = true
is_outage protocol = true
is_outage pool_timed_out = true
is_outage pool_closed = true
is_outage worker_crashed = true
is_outage (database_error (some code)) = is_outage_code code
is_outage (database_error none) = false
is_outage other = false

-- `From<sqlx::Error>`.
unfoldable pub from_sqlx : SqlxError → StoreError
unfolding is_outage
from_sqlx e = if is_outage e then unavailable e else database e

-- What comes of a statement that only reads, or whose effect a rollback undoes.
unfoldable pub ask : Option SqlxError → Result (Unit {0}) StoreError
unfolding from_sqlx
ask none = ok tt
ask (some e) = err (from_sqlx e)

-- What comes of a commit: it is acknowledged, it did not happen, or it happened and the reply was
-- lost with the connection.
pub data Reply : Type 0 where
  acknowledged : Reply
  refused : SqlxError → Reply
  lost : SqlxError → Reply

-- The result that the caller sees and the table that is left, for a change from `before`.
unfoldable pub commit :
    {A T : Type 0} → Reply → T → Result (A × T) StoreError → Result A StoreError × T
unfolding from_sqlx
commit reply before (err e) = (err e, before)
commit acknowledged before (ok (a, after)) = (ok a, after)
commit (refused e) before (ok (a, after)) = (err (from_sqlx e), before)
commit (lost e) before (ok (a, after)) = (err (from_sqlx e), after)
