-- ===== src/TestDatabase/Rows.antt =====
-- What the tests read and change in the `events` table. A panic is no result; an interval is in
-- microseconds.
use pulse_stream.Common.{
  ℕ, suc, ◌-◌, Bool, true, false, ◌&&◌, Text, String, text_eq, length, filter, ltb, ◌==◌,
  if◌then◌else◌, Option, none, some, [], ◌∷◌,
}
use pulse_stream.Event.{EventId, EventStatus, pending, processing, processed, as_db_str}
use pulse_stream.Store.Schema.{Row, Table, find_by_id}
use pulse_stream.Store.Complete.{is_processing}

-- WHERE event_id = $1 AND status = 'PROCESSING'.
unfoldable pub is_expiring : EventId → Row → Bool
unfolding is_processing
is_expiring id r = (r.event_id == id.uuid) && is_processing r.status

-- SET lease_expires_at = now() - interval '1 second'.
unfoldable pub expire_row : ℕ → Row → Row
expire_row now r = record r { lease_expires_at = some (now - 1000000) }

unfoldable pub expire_rows : ℕ → EventId → Table → Table
unfolding is_expiring expire_row
expire_rows now id [] = []
expire_rows now id (r ∷ t) =
    (if is_expiring id r then expire_row now r else r) ∷ expire_rows now id t

unfoldable pub rows_expired : EventId → Table → ℕ
unfolding is_expiring
rows_expired id [] = 0
rows_expired id (r ∷ t) =
    let rest = rows_expired id t in if is_expiring id r then suc rest else rest

-- `TestDatabase::expire_lease`, with its assertion.
unfoldable pub expire_lease : ℕ → EventId → Table → Option Table
unfolding expire_rows rows_expired
expire_lease now id t = if rows_expired id t == 1 then some (expire_rows now id t) else none

pub record Lifecycle : Type 0 where
  pub status : String
  pub owner : Option ℕ
  pub attempts : ℕ
  pub lease_active : Option Bool

unfoldable pub lease_active : ℕ → Option ℕ → Option Bool
lease_active now none = none
lease_active now (some lease) = some (ltb now lease)

-- `TestDatabase::lifecycle`.
unfoldable pub lifecycle : ℕ → EventId → Table → Option Lifecycle
unfolding find_by_id as_db_str lease_active
lifecycle now id t = elim (find_by_id id.uuid t) [
  | none ↦ none
  | some r ↦ some (record {
    status = as_db_str r.status;
    owner = r.processing_owner;
    attempts = r.delivery_attempts;
    lease_active = lease_active now r.lease_expires_at;
  })
]

-- `TestDatabase::count_for_source`.
unfoldable pub count_for_source : Text → Table → ℕ
count_for_source source t = length (filter (λ r. text_eq r.source source) t)

unfoldable pub count_status : (EventStatus → Bool) → Table → ℕ
count_status has t = length (filter (λ r. has r.status) t)

unfoldable pub is_pending : EventStatus → Bool
is_pending pending = true
is_pending processing = false
is_pending processed = false

unfoldable pub is_processed : EventStatus → Bool
is_processed pending = false
is_processed processing = false
is_processed processed = true

-- `TestDatabase::status_counts`.
unfoldable pub status_counts : Table → ℕ × ℕ × ℕ
unfolding count_status is_pending is_processing is_processed
status_counts t =
    (count_status is_pending t, count_status is_processing t, count_status is_processed t)
