-- ===== src/Store/Schema.antt =====
-- The `events` table: its rows, constraints and lookups (migrations/0001_create_events.sql).
use pulse_stream.Common.{
  ℕ, ◌≤◌, ◌≡◌, ◌≢◌, Bool, ◌&&◌, not, Text, Bytes, codes, text_eq, length, leb, ◌==◌, if◌then◌else◌,
  Option, none, some, Result, ok, err, List, [], ◌∷◌, ◌++◌,
}
use pulse_stream.Json.{Value, is_null}
use pulse_stream.Event.{
  Event, EventStatus, pending, processing, processed, max_source_chars, max_event_type_chars,
}
use pulse_stream.Idempotency.{IdempotencyKey, RequestFingerprint, max_idempotency_key_chars}
use pulse_stream.Store.Errors.{SqlxError, database_error}

-- `status` is text with a CHECK on its three values, so it is the state that it names. Times are
-- microseconds of the database's clock.
pub record Row : Type 0 where
  pub event_id : ℕ
  pub source : Text
  pub event_type : Text
  pub payload : Value
  pub idempotency_key : Text
  pub request_fingerprint : Bytes
  pub accepted_at : ℕ
  pub status : EventStatus
  pub processing_owner : Option ℕ
  pub processing_started_at : Option ℕ
  pub lease_expires_at : Option ℕ
  pub processed_at : Option ℕ
  pub delivery_attempts : ℕ

abbrev pub Table : Type 0
Table = List Row

-- CHECK `events_lifecycle_consistent`.
abbrev pub IsConsistent : Row → Type 0
IsConsistent r = elim r.status [
  | pending ↦
      (r.processing_owner ≡ none)
      × (r.processing_started_at ≡ none)
      × (r.lease_expires_at ≡ none)
      × (r.processed_at ≡ none)
  | processing ↦
      (r.processing_owner ≢ none)
      × (r.processing_started_at ≢ none)
      × (r.lease_expires_at ≢ none)
      × (r.processed_at ≡ none)
      × (1 ≤ r.delivery_attempts)
  | processed ↦
      (r.processing_owner ≡ none)
      × (r.lease_expires_at ≡ none)
      × (r.processed_at ≢ none)
      × (1 ≤ r.delivery_attempts)
]

-- UNIQUE (source, idempotency_key).
unfoldable pub has_key : Text → Text → Row → Bool
has_key source key r = text_eq r.source source && text_eq r.idempotency_key key

unfoldable pub find_by_key : Text → Text → Table → Option Row
unfolding has_key
find_by_key source key [] = none
find_by_key source key (r ∷ t) = if has_key source key r then some r else find_by_key source key t

unfoldable pub find_by_id : ℕ → Table → Option Row
find_by_id id [] = none
find_by_id id (r ∷ t) = if r.event_id == id then some r else find_by_id id t

-- The CHECK constraints on the columns that an INSERT gives.
unfoldable pub passes_checks : Event → IdempotencyKey → RequestFingerprint → Bool
passes_checks event key fingerprint =
    leb 1 (length event.source.text)
    && leb (length event.source.text) max_source_chars
    && leb 1 (length event.event_type.text)
    && leb (length event.event_type.text) max_event_type_chars
    && not (is_null event.payload)
    && leb 1 (length key.text)
    && leb (length key.text) max_idempotency_key_chars
    && (length fingerprint.bytes == 32)

unfoldable pub new_row : ℕ → Event → IdempotencyKey → RequestFingerprint → Row
new_row now event key fingerprint = record {
  event_id = event.id.uuid;
  source = event.source.text;
  event_type = event.event_type.text;
  payload = event.payload;
  idempotency_key = key.text;
  request_fingerprint = fingerprint.bytes;
  accepted_at = now;
  status = pending;
  processing_owner = none;
  processing_started_at = none;
  lease_expires_at = none;
  processed_at = none;
  delivery_attempts = 0;
}

-- INSERT … ON CONFLICT ON CONSTRAINT events_source_idempotency_key_key DO NOTHING RETURNING
-- event_id. A violation of another constraint is an error.
unfoldable pub insert_event :
    ℕ → Event → IdempotencyKey → RequestFingerprint → Table → Result (Option ℕ × Table) SqlxError
unfolding passes_checks find_by_key find_by_id new_row
insert_event now event key fingerprint table =
    if passes_checks event key fingerprint
    then elim (find_by_key event.source.text key.text table) [
      | some r ↦ ok (none, table)
      | none ↦ elim (find_by_id event.id.uuid table) [
        | some r ↦ err (database_error (some (codes "23505")))
        | none ↦ ok (some event.id.uuid, table ++ new_row now event key fingerprint ∷ [])
      ]
    ]
    else err (database_error (some (codes "23514")))
