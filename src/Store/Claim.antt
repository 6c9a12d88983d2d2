-- ===== src/Store/Claim.antt =====
-- `Store::claim`: the candidates, the UPDATE and the rows that it returns.
pub mod Waiting
pub mod Candidates
pub mod Keeps
pub mod Returned
pub mod Bound
pub mod Order
pub mod Taken
use pulse_stream.Common.{
  ℕ, ◌+◌, ◌-◌, ◌*◌, ◌^◌, min, Bool, true, false, ◌&&◌, ◌||◌, not, Text, codes, take, any, filter,
  leb, ltb, ◌==◌, if◌then◌else◌, Option, none, some, Result, ok, err, ◌>>=◌, map_err, List, [], ◌∷◌,
  map,
}
use text.Mathlib.Text.{◌==◌ as str_eq}
use pulse_stream.Event.{
  Event, EventStatus, pending, processing, processed, WorkerId, as_db_str, parse_source,
  parse_event_type,
}
use pulse_stream.Store.Errors.{
  SqlxError, database_error, StoreError, inconsistent, from_sqlx, Reply, commit,
}
use pulse_stream.Store.Schema.{Row, Table}

pub record ClaimedEvent : Type 0 where
  pub event : Event
  pub attempt : ℕ
  pub reclaimed : Bool

-- `lease_expires_at <= now()`, which is not true of NULL.
unfoldable pub has_expired : ℕ → Option ℕ → Bool
has_expired now none = false
has_expired now (some lease) = leb lease now

unfoldable pub is_claimable : ℕ → Row → Bool
unfolding has_expired
is_claimable now r = elim r.status [
  | pending ↦ true
  | processing ↦ has_expired now r.lease_expires_at
  | processed ↦ false
]

-- ORDER BY accepted_at, event_id.
unfoldable pub is_older : Row → Row → Bool
is_older a b =
    ltb a.accepted_at b.accepted_at
    || ((a.accepted_at == b.accepted_at) && leb a.event_id b.event_id)

unfoldable pub insert_row : Row → Table → Table
unfolding is_older
insert_row r [] = r ∷ []
insert_row r (s ∷ t) = if is_older r s then r ∷ s ∷ t else s ∷ insert_row r t

unfoldable pub sort_rows : Table → Table
unfolding insert_row
sort_rows [] = []
sort_rows (r ∷ t) = insert_row r (sort_rows t)

-- The CTE: LIMIT after ORDER BY, and SKIP LOCKED for the rows that other transactions hold.
unfoldable pub candidates : ℕ → (ℕ → Bool) → ℕ → Table → Table
unfolding is_claimable sort_rows
candidates now locked limit table =
    take limit (sort_rows (filter (λ r. is_claimable now r && not (locked r.event_id)) table))

unfoldable pub is_chosen : Table → Row → Bool
is_chosen chosen r = any (λ c. c.event_id == r.event_id) chosen

-- The SET list. `lease` is in microseconds.
unfoldable pub lease_row : WorkerId → ℕ → ℕ → Row → Row
lease_row owner now lease r = record r {
  status = processing;
  processing_owner = some owner.uuid;
  processing_started_at = some now;
  lease_expires_at = some (now + lease);
  delivery_attempts = r.delivery_attempts + 1;
}

unfoldable pub update_chosen : WorkerId → ℕ → ℕ → Table → Table → Table
unfolding is_chosen lease_row
update_chosen owner now lease chosen [] = []
update_chosen owner now lease chosen (r ∷ t) =
    (if is_chosen chosen r then lease_row owner now lease r else r)
    ∷ update_chosen owner now lease chosen t

-- RETURNING: each updated row, with the status that it had.
unfoldable pub returned : WorkerId → ℕ → ℕ → Table → Table → List (Row × EventStatus)
unfolding is_chosen lease_row
returned owner now lease chosen table =
    map (λ r. (lease_row owner now lease r, r.status)) (filter (is_chosen chosen) table)

-- The largest INTEGER: one more delivery attempt is an error of the statement.
abbrev pub max_attempts : ℕ
max_attempts = 2 ^ 31 - 1

-- The closure on each returned row. The counter is not negative, so its conversion cannot fail.
unfoldable pub to_claimed : Row × EventStatus → Result ClaimedEvent StoreError
to_claimed (r, previous) = do
  source ← map_err (λ _. inconsistent "invalid stored source") (parse_source r.source)
  event_type ←
      map_err (λ _. inconsistent "invalid stored event_type") (parse_event_type r.event_type)
  ok (record {
    event = record {
      id = record { uuid = r.event_id };
      source = source;
      event_type = event_type;
      payload = r.payload;
      accepted_at = r.accepted_at;
    };
    attempt = r.delivery_attempts;
    reclaimed = str_eq (as_db_str previous) (as_db_str processing);
  })

-- `collect` into a `Result`.
unfoldable pub collect : List (Row × EventStatus) → Result (List ClaimedEvent) StoreError
unfolding to_claimed
collect [] = ok []
collect (x ∷ xs) = do c ← to_claimed x; cs ← collect xs; ok (c ∷ cs)

-- The statement, which commits by itself.
unfoldable pub run_claim :
    ℕ → (ℕ → Bool) → WorkerId → ℕ → ℕ → Table → Result (List (Row × EventStatus) × Table) StoreError
unfolding candidates update_chosen returned
run_claim now locked owner limit lease table =
    let chosen = candidates now locked limit table in
    if any (λ r. leb max_attempts r.delivery_attempts) chosen
    then err (from_sqlx (database_error (some (codes "22003"))))
    else ok (returned owner now lease chosen table, update_chosen owner now lease chosen table)

-- `i64::try_from(limit).unwrap_or(i64::MAX)`.
abbrev pub max_limit : ℕ
max_limit = 2 ^ 63 - 1

-- The rows are converted after the statement has committed.
unfoldable pub claim :
    Reply
    → ℕ
    → (ℕ → Bool)
    → WorkerId
    → ℕ
    → ℕ
    → Table
    → Result (List ClaimedEvent) StoreError × Table
unfolding run_claim collect commit
claim reply now locked owner limit lease table =
    if limit == 0
    then (ok [], table)
    else let (rows, after) =
        commit reply table (run_claim now locked owner (min limit max_limit) lease table) in
      (rows >>= collect, after)
