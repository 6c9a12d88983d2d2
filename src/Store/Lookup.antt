-- ===== src/Store/Lookup.antt =====
-- `Store::get`. PostgreSQL's formatting of a timestamp is a parameter.
use pulse_stream.Common.{
  ℕ, ◌≡◌, refl, Text, Option, none, some, Result, ok, err, ◌>>=◌, ◌>>◌, arith,
}
use pulse_stream.Event.{EventId, EventStatus, as_db_str, from_db_str}
use pulse_stream.Event.Status.{from_db_str-as_db_str}
use pulse_stream.Store.Errors.{SqlxError, StoreError, inconsistent, ask}
use pulse_stream.Store.Schema.{Row, Table, find_by_id}

pub record EventRecord : Type 0 where
  pub event_id : EventId
  pub source : Text
  pub event_type : Text
  pub status : EventStatus
  pub accepted_at : Text
  pub processed_at : Option Text

unfoldable pub read_status : Row → Result EventStatus StoreError
read_status r = elim (from_db_str (as_db_str r.status)) [
  | some s ↦ ok s
  | none ↦ err (inconsistent "unknown status")
]

-- The stored state is always one that `from_db_str` knows.
read_status_lem : (r : Row) → read_status r ≡ ok r.status
unfolding read_status
read_status_lem r = ground (arith, (from_db_str-as_db_str (as_db_str r.status) r.status).1 refl)

module _ (to_char : ℕ → Text) where
  abbrev pub format_processed : Option ℕ → Option Text
  format_processed none = none
  format_processed (some t) = some (to_char t)

  abbrev pub record_of : Row → EventStatus → EventRecord
  record_of r status = record {
    event_id = record { uuid = r.event_id };
    source = r.source;
    event_type = r.event_type;
    status = status;
    accepted_at = to_char r.accepted_at;
    processed_at = format_processed r.processed_at;
  }

  unfoldable pub read_record : Option Row → Result (Option EventRecord) StoreError
  unfolding read_status
  read_record none = ok none
  read_record (some r) = do status ← read_status r; ok (some (record_of r status))

  unfoldable pub get : Option SqlxError → EventId → Table → Result (Option EventRecord) StoreError
  unfolding ask find_by_id read_record
  get io id table = do ask io; read_record (find_by_id id.uuid table)

  pub get_lem :
      (id : EventId) (t : Table) (r : Row)
      → find_by_id id.uuid t ≡ some r
      → get none id t ≡ ok (some (record_of r r.status))
  unfolding get
  get_lem id t r h = rw (h, read_record) (rw (read_status_lem r))
