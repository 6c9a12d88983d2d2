-- ===== src/Store/Complete.antt =====
-- `Store::complete`.
pub mod Keeps
pub mod Exact
use pulse_stream.Common.{
  ℕ, zero, suc, Bool, true, false, ◌&&◌, ◌==◌, if◌then◌else◌, Option, none, some, Result, ok, List,
  [], ◌∷◌,
}
use pulse_stream.Event.{EventId, EventStatus, pending, processing, processed, WorkerId}
use pulse_stream.Store.Errors.{StoreError, Reply, commit}
use pulse_stream.Store.Schema.{Row, Table}

unfoldable pub is_processing : EventStatus → Bool
is_processing pending = false
is_processing processing = true
is_processing processed = false

unfoldable pub is_owned_by : ℕ → Option ℕ → Bool
is_owned_by owner none = false
is_owned_by owner (some w) = w == owner

-- WHERE event_id = $1 AND status = 'PROCESSING' AND processing_owner = $2.
unfoldable pub holds_claim : EventId → WorkerId → Row → Bool
unfolding is_processing is_owned_by
holds_claim id owner r =
    (r.event_id == id.uuid) && is_processing r.status && is_owned_by owner.uuid r.processing_owner

unfoldable pub complete_row : ℕ → Row → Row
complete_row now r = record r {
  status = processed;
  processed_at = some now;
  processing_owner = none;
  lease_expires_at = none;
}

unfoldable pub complete_rows : ℕ → EventId → WorkerId → Table → Table
unfolding holds_claim complete_row
complete_rows now id owner [] = []
complete_rows now id owner (r ∷ t) =
    (if holds_claim id owner r then complete_row now r else r) ∷ complete_rows now id owner t

unfoldable pub rows_affected : EventId → WorkerId → Table → ℕ
unfolding holds_claim
rows_affected id owner [] = 0
rows_affected id owner (r ∷ t) =
    let rest = rows_affected id owner t in if holds_claim id owner r then suc rest else rest

unfoldable pub complete : Reply → ℕ → EventId → WorkerId → Table → Result Bool StoreError × Table
unfolding complete_rows rows_affected commit
complete reply now id owner table =
    commit reply table (ok (rows_affected id owner table == 1, complete_rows now id owner table))
