-- ===== src/Store/Processed.antt =====
-- What makes an event processed.
use pulse_stream.Common.{ℕ, ◌≡◌, ◌≢◌, ◌⊎◌, inl, inr, refl, Option-cases, some}
use pulse_stream.Event.{EventStatus, pending, processing, processed}
use pulse_stream.Store.Schema.{Row, Table, find_by_id}
use pulse_stream.Store.Invariant.Lookups.{find_by_id_hit}
use pulse_stream.Store.Claim.{lease_row}
use pulse_stream.Store.Complete.Exact.{IsHeldBy}
use pulse_stream.Store.History.Changes.{Changes, Step-Changes, Step-new}
use pulse_stream.Store.History.{Step, admits, claims, completes, History, here, next}

-- The call is a completion of the event by a worker that the row names as its owner.
abbrev pub IsCompletionOf : {t u : Table} → ℕ → Row → Step t u → Type 0
IsCompletionOf id r (admits io now event key fingerprint v) = ⊥
IsCompletionOf id r (claims reply now locked owner limit lease) = ⊥
IsCompletionOf id r (completes reply now eid owner) = (eid.uuid ≡ id) × IsHeldBy owner r

-- A call that changes a row to a processed one completes it.
changed-processed :
    {t u : Table} (id : ℕ) (r s : Row) (st : Step t u)
    → r.event_id ≡ id
    → Changes st r s
    → r.status ≢ processed
    → s.status ≡ processed
    → IsCompletionOf id r st
unfolding lease_row
changed-processed id r s (admits io now event key fingerprint v) i e n p = absurd (n (rw e at p))
changed-processed id r s (claims reply now locked owner limit lease) i (inl e) n p =
    absurd (n (rw e at p))
changed-processed id r s (claims reply now locked owner limit lease) i (inr e) n p =
    let q : (lease_row owner now lease r).status ≡ processed = rw e at p in cc
changed-processed id r s (completes reply now eid owner) i (inl e) n p = absurd (n (rw e at p))
changed-processed id r s (completes reply now eid owner) i (inr (e, k, h)) n p = (cc (i, k), h)

-- A call that makes a row processed is a completion of its event by the worker that the row names
-- as its owner while it is being processed.
pub Step-processed :
    {t u : Table} (id : ℕ) (r s : Row) (st : Step t u)
    → find_by_id id t ≡ some r
    → find_by_id id u ≡ some s
    → r.status ≢ processed
    → s.status ≡ processed
    → IsCompletionOf id r st
Step-processed {t} id r s st f g n p =
    changed-processed id r s st (find_by_id_hit id t r f) (Step-Changes id r s st f g) n p

is_processed-cases : (s : EventStatus) → (s ≡ processed) ⊎ (s ≢ processed)
is_processed-cases pending = inr (λ h. cc)
is_processed-cases processing = inr (λ h. cc)
is_processed-cases processed = inl refl

-- A call of the history completes the event for the owner that its row names.
abbrev pub HasCompletion : {t u : Table} → ℕ → History t u → Type 0
HasCompletion id here = ⊥
HasCompletion id (next {u = u} h st) =
    HasCompletion id h
    ⊎ ((r : Row) × (find_by_id id u ≡ some r) × (r.status ≢ processed) × IsCompletionOf id r st)

-- A history from a table where the event is not processed, or is not there, to one where it is
-- processed has a completion of the event by the worker that its row named as the owner when the
-- call was made, while the row was being processed.
pub history_processed :
    {t u : Table} (id : ℕ) (s : Row) (h : History t u)
    → ((r : Row) → find_by_id id t ≡ some r → r.status ≢ processed)
    → find_by_id id u ≡ some s
    → s.status ≡ processed
    → HasCompletion id h
history_processed id s here n g p = absurd (n s g p)
history_processed id s (next {u = u} h st) n g p = elim (Option-cases (find_by_id id u)) [
  | inl f ↦ cc (Step-new id s st f g, p)
  | inr (r, f) ↦ elim (is_processed-cases r.status) [
    | inl q ↦ inl (history_processed id r h n f q)
    | inr q ↦ inr (r, f, q, Step-processed id r s st f g q p)
  ]
]
