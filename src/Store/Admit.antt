-- ===== src/Store/Admit.antt =====
-- `Store::admit`: one transaction that inserts an event or resolves a replay or a conflict.
pub mod Cases
pub mod Keeps
pub mod Ledger
pub mod Retry
use pulse_stream.Common.{
  ℕ, Text, text_eq, if◌then◌else◌, Option, none, some, Result, ok, err, ◌>>=◌, ◌>>◌, map_err,
}
use pulse_stream.Event.{Event, EventId}
use pulse_stream.Idempotency.{IdempotencyKey, RequestFingerprint}
use pulse_stream.Store.Errors.{SqlxError, StoreError, inconsistent, from_sqlx, ask, Reply, commit}
use pulse_stream.Store.Schema.{Row, Table, find_by_key, insert_event}

pub data AdmitOutcome : Type 0 where
  created replayed : EventId → AdmitOutcome
  conflict : AdmitOutcome

-- How the database answers each statement of the transaction.
pub record AdmitIo : Type 0 where
  pub begin : Option SqlxError
  pub insert : Option SqlxError
  pub select : Option SqlxError
  pub reply : Reply

-- The match on the row that the conflict lookup finds.
unfoldable pub resolve : Option Row → RequestFingerprint → Result AdmitOutcome StoreError
resolve (some r) fingerprint =
    if text_eq r.request_fingerprint fingerprint.bytes
    then ok (replayed (record { uuid = r.event_id }))
    else ok conflict
resolve none fingerprint = err (inconsistent "conflicting row not found")

-- The match on the identity that the INSERT returns.
unfoldable pub settle :
    AdmitIo
    → Event
    → IdempotencyKey
    → RequestFingerprint
    → Option ℕ
    → Table
    → Result (AdmitOutcome × Table) StoreError
unfolding resolve find_by_key ask
settle io event key fingerprint (some id) table = ok (created (record { uuid = id }), table)
settle io event key fingerprint none table = do
  ask io.select
  outcome ← resolve (find_by_key event.source.text key.text table) fingerprint
  ok (outcome, table)

-- The statements of the transaction: the outcome, and the table that a commit would leave.
unfoldable pub run_transaction :
    AdmitIo
    → ℕ
    → Event
    → IdempotencyKey
    → RequestFingerprint
    → Table
    → Result (AdmitOutcome × Table) StoreError
unfolding settle insert_event ask
run_transaction io now event key fingerprint table = do
  ask io.begin
  ask io.insert
  inserted ← map_err from_sqlx (insert_event now event key fingerprint table)
  settle io event key fingerprint inserted.0 inserted.1

-- An error on the way drops the transaction, which rolls it back.
unfoldable pub admit :
    AdmitIo
    → ℕ
    → Event
    → IdempotencyKey
    → RequestFingerprint
    → Table
    → Result AdmitOutcome StoreError × Table
unfolding run_transaction commit
admit io now event key fingerprint table =
    commit io.reply table (run_transaction io now event key fingerprint table)
