-- ===== src/Store/Stale.antt =====
-- A worker without the claim of an event gets it by a claim only.
use pulse_stream.Common.{ℕ, ◌≡◌, ◌≢◌, inl, inr, Option-cases, some, ok, false, arith}
use pulse_stream.Event.{EventId, WorkerId}
use pulse_stream.Store.Errors.{acknowledged}
use pulse_stream.Store.Schema.{Row, Table, find_by_id}
use pulse_stream.Store.Invariant.{IsSound}
use pulse_stream.Store.Claim.{lease_row}
use pulse_stream.Store.Complete.{complete, complete_row}
use pulse_stream.Store.Complete.Exact.{IsHeldBy, complete_exact}
use pulse_stream.Store.History.{
  Step, admits, claims, completes, History, here, next, History-IsSound,
}
use pulse_stream.Store.History.Changes.{Changes, Step-Changes, Step-new}

-- The worker holds the event: there is a row of it, which is being processed and names the worker.
abbrev pub Holds : WorkerId → ℕ → Table → Type 0
Holds owner id t = (r : Row) × (find_by_id id t ≡ some r) × IsHeldBy owner r

-- The call is not a claim by the worker; it may be one of its completions.
abbrev pub IsNoClaimBy : {t u : Table} → WorkerId → Step t u → Type 0
IsNoClaimBy owner (admits io now event key fingerprint v) = Unit
IsNoClaimBy owner (claims reply now locked other limit lease) = other.uuid ≢ owner.uuid
IsNoClaimBy owner (completes reply now id other) = Unit

abbrev pub HasNoClaimBy : {t u : Table} → WorkerId → History t u → Type 0
HasNoClaimBy owner here = Unit
HasNoClaimBy owner (next h st) = HasNoClaimBy owner h × IsNoClaimBy owner st

changed-held :
    {t u : Table} (owner : WorkerId) (r s : Row) (st : Step t u)
    → IsNoClaimBy owner st
    → Changes st r s
    → IsHeldBy owner s
    → IsHeldBy owner r
unfolding lease_row complete_row
changed-held owner r s (admits io now event key fingerprint v) n e h = rw e at h
changed-held owner r s (claims reply now locked other limit lease) n (inl e) h = rw e at h
changed-held owner r s (claims reply now locked other limit lease) n (inr e) h = ground arith
changed-held owner r s (completes reply now eid other) n (inl e) h = rw e at h
changed-held owner r s (completes reply now eid other) n (inr e) h = ground arith

Step-Holds :
    {t u : Table} (owner : WorkerId) (id : ℕ) (st : Step t u)
    → IsNoClaimBy owner st
    → Holds owner id u
    → Holds owner id t
Step-Holds {t} owner id st n (s, g, h) = elim (Option-cases (find_by_id id t)) [
  | inl f ↦ cc (Step-new id s st f g, h.0)
  | inr (r, f) ↦ (r, f, changed-held owner r s st n (Step-Changes id r s st f g) h)
]

History-Holds :
    {t u : Table} (owner : WorkerId) (id : ℕ) (h : History t u)
    → HasNoClaimBy owner h
    → Holds owner id u
    → Holds owner id t
History-Holds owner id here n m = m
History-Holds owner id (next h st) n m = History-Holds owner id h n.0 (Step-Holds owner id st n.1 m)

-- A worker that does not hold an event of a sound table, for example because its lease has ended and
-- another worker has claimed the event: after any calls without a claim of its own, its acknowledged
-- completion of the event is answered with false and changes nothing.
pub stale_refused :
    {t u : Table} (owner : WorkerId) (id : EventId) (h : History t u) (now : ℕ)
    → IsSound t
    → ¬ Holds owner id.uuid t
    → HasNoClaimBy owner h
    → complete acknowledged now id owner u ≡ (ok false, u)
stale_refused {t} {u} owner id h now sound n k =
    elim (complete_exact now id owner u (History-IsSound h sound)) [
      | inr x ↦ x.1
      | inl (r, f, held, answer, found) ↦ absurd (n (History-Holds owner id.uuid h k (r, f, held)))
    ]
