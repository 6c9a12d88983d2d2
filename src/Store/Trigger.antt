-- ===== src/Store/Trigger.antt =====
-- What PostgreSQL checks on an UPDATE of `events`: the trigger `events_content_immutable` and the
-- CHECK on the lifecycle (migrations/0001_create_events.sql). Equality of JSONB is a parameter.
pub mod Accepted
use pulse_stream.Common.{
  ℕ, Bool, true, false, ◌&&◌, ◌||◌, not, text_eq, codes, leb, ◌==◌, if◌then◌else◌, Option, none,
  some, Result, ok, err, ◌>>=◌, List, [], ◌∷◌,
}
use pulse_stream.Json.{Value}
use pulse_stream.Event.{EventStatus, pending, processing, processed}
use pulse_stream.Store.Errors.{SqlxError, database_error}
use pulse_stream.Store.Schema.{Row, Table}

-- `IS NULL`.
unfoldable pub is_null_column : Option ℕ → Bool
is_null_column none = true
is_null_column (some x) = false

-- CHECK `events_lifecycle_consistent`, as the database runs it.
unfoldable pub is_consistent : Row → Bool
unfolding is_null_column
is_consistent r = elim r.status [
  | pending ↦
      is_null_column r.processing_owner
      && is_null_column r.processing_started_at
      && is_null_column r.lease_expires_at
      && is_null_column r.processed_at
  | processing ↦
      not (is_null_column r.processing_owner)
      && not (is_null_column r.processing_started_at)
      && not (is_null_column r.lease_expires_at)
      && is_null_column r.processed_at
      && leb 1 r.delivery_attempts
  | processed ↦
      is_null_column r.processing_owner
      && is_null_column r.lease_expires_at
      && not (is_null_column r.processed_at)
      && leb 1 r.delivery_attempts
]

module _ (json_eq : Value → Value → Bool) where
  -- The condition of `events_reject_content_update`; none of the columns is NULL.
  unfoldable pub changes_content : Row → Row → Bool
  changes_content old new =
      not (new.event_id == old.event_id)
      || not (text_eq new.source old.source)
      || not (text_eq new.event_type old.event_type)
      || not (json_eq new.payload old.payload)
      || not (text_eq new.idempotency_key old.idempotency_key)
      || not (text_eq new.request_fingerprint old.request_fingerprint)
      || not (new.accepted_at == old.accepted_at)

  -- One row of an UPDATE: the trigger runs before it, then the CHECK.
  unfoldable pub update_row : Row → Row → Result Row SqlxError
  unfolding changes_content is_consistent
  update_row old new =
      if changes_content old new
      then err (database_error (some (codes "23000")))
      else if is_consistent new
      then ok new
      else err (database_error (some (codes "23514")))

  -- UPDATE … SET … WHERE: the statement fails if one row does.
  unfoldable pub update_where : (Row → Bool) → (Row → Row) → Table → Result Table SqlxError
  unfolding update_row
  update_where where_holds set [] = ok []
  update_where where_holds set (r ∷ t) = do
    s ← if where_holds r then update_row r (set r) else ok r
    u ← update_where where_holds set t
    ok (s ∷ u)
