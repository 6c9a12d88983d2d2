-- ===== src/System/LostClaims.antt =====
-- The late end of a task whose claim has been lost.
use pulse_stream.Common.{ℕ, ◌≡◌, refl, ◌∙◌}
use pulse_stream.Event.{WorkerId}
use pulse_stream.Store.Errors.{acknowledged}
use pulse_stream.Store.Schema.{Table}
use pulse_stream.Store.Invariant.{IsSound}
use pulse_stream.Store.Claim.{ClaimedEvent}
use pulse_stream.Store.Complete.{complete}
use pulse_stream.Store.History.{History}
use pulse_stream.Store.Stale.{Holds, HasNoClaimBy, stale_refused}
use pulse_stream.Runtime.{Counters, succeeds, finished, bump, count_completion, process_claim}

process_claim_lem :
    (owner : WorkerId) (c : ClaimedEvent) (counters : Counters) (now : ℕ) (u : Table)
    → process_claim succeeds acknowledged now owner c counters u ≡ (
      finished,
      count_completion (complete acknowledged now c.event.id owner u).0 counters,
      (complete acknowledged now c.event.id owner u).1,
    )
unfolding process_claim
process_claim_lem owner c counters now u = refl

-- A worker that does not hold the event of one of its tasks in a sound table, for example because
-- the lease has ended and another worker has claimed the event: after any calls of the store but
-- claims by this worker, a task that processes the event and whose completion is acknowledged
-- leaves the table as it is. The counter of lost claims goes up by one, and no other does.
pub lost_claim_counted :
    {t u : Table} (owner : WorkerId) (c : ClaimedEvent) (counters : Counters) (h : History t u)
    (now : ℕ)
    → IsSound t
    → ¬ Holds owner c.event.id.uuid t
    → HasNoClaimBy owner h
    → process_claim succeeds acknowledged now owner c counters u
      ≡ (finished, record counters { lost_claims = bump counters.lost_claims }, u)
unfolding count_completion
lost_claim_counted owner c counters h now sound n k =
    process_claim_lem owner c counters now _
    ∙ rw (stale_refused owner c.event.id h now sound n k) refl
