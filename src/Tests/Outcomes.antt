-- ===== src/Tests/Outcomes.antt =====
-- Instances for what becomes of a waiting event, and for the checks of the database.
use pulse_stream.Common.{
  inl, inr, ℕ, Bool, ◌<◌, ◌≡◌, ◌↔◌, refl, false, text_eq, text_eq_refl, In, Option, codes, some, ok,
  List, arith,
}
use pulse_stream.Json.{Value}
use pulse_stream.Idempotency.{write_canonical}
use pulse_stream.Store.Errors.{acknowledged}
use pulse_stream.Store.Schema.{Row, Table, IsConsistent, find_by_id}
use pulse_stream.Store.Invariant.{Evolves-refl}
use pulse_stream.Store.Trigger.{update_row, update_where}
use pulse_stream.Store.Trigger.Accepted.{HasContentOf, updates_accepted}
use pulse_stream.Store.Claim.{
  ClaimedEvent, max_attempts, candidates, is_chosen, lease_row, update_chosen, claim,
}
use pulse_stream.Store.Claim.Waiting.{IsWaiting, Waiting}
use pulse_stream.Store.Claim.Returned.{Reports}
use pulse_stream.Store.Complete.{holds_claim, complete_row, complete_rows, complete}
use pulse_stream.Store.History.{Step, History}
use pulse_stream.Store.Stale.{Holds}
use pulse_stream.System.LostClaims.{lost_claim_counted}
use pulse_stream.Runtime.{Counters, succeeds, finished, bump, process_claim}
use pulse_stream.Api.Events.Reported.{IsReportedProcessed}
use pulse_stream.System.Delivery.{delivery_reported}
use pulse_stream.Tests.Samples.{
  order, alice, bob, unlocked, pending_row, claimed_table, pending_table, pending_table-IsSound,
  claimed_table-IsSound,
}
use pulse_stream.Tests.Writer.{shifting}
use pulse_stream.Tests.Completion.{platform}

-- JSONB has equal values exactly if their canonical forms are the same.
abbrev json_eq : Value → Value → Bool
json_eq v w = text_eq (write_canonical shifting v) (write_canonical shifting w)

updates_accepted_example :
    (update_where json_eq
        (is_chosen (candidates 200 unlocked 2 claimed_table))
        (lease_row alice 200 100)
        claimed_table
      ≡ ok (update_chosen alice 200 100 (candidates 200 unlocked 2 claimed_table) claimed_table))
    × (update_where json_eq (holds_claim order.id alice) (complete_row 200) claimed_table
        ≡ ok (complete_rows 200 order.id alice claimed_table))
    × ((old new : Row)
        → (update_row json_eq old new ≡ ok new) ↔ (HasContentOf json_eq old new × IsConsistent new))
updates_accepted_example =
    updates_accepted json_eq (λ v. text_eq_refl (write_canonical shifting v)) claimed_table
      claimed_table-IsSound 200 unlocked alice 2 100 order.id

-- Alice's lease has ended, and she claims again; bob has never had the event.
abbrev alice_again :
    History claimed_table (claim acknowledged 200 unlocked alice 2 100 claimed_table).1
alice_again = History.next History.here (Step.claims acknowledged 200 unlocked alice 2 100)

bob-Holds-nothing : ¬ Holds bob 7 claimed_table
unfolding find_by_id
bob-Holds-nothing (r, f, h) = cc (f, h.1)

-- Bob's task is late.
abbrev late : ClaimedEvent
late = record { event = record order { accepted_at = 3 }; attempt = 1; reclaimed = false }

abbrev counted : Counters
counted = record { processed = 1; failed = 0; lost_claims = 0 }

abbrev again : Table
again = (claim acknowledged 200 unlocked alice 2 100 claimed_table).1

lost_claim_counted_example :
    process_claim succeeds acknowledged 210 bob late counted again
    ≡ (finished, record counted { lost_claims = bump counted.lost_claims }, again)
lost_claim_counted_example =
    lost_claim_counted bob late counted alice_again 210 claimed_table-IsSound bob-Holds-nothing
      (tt, λ h. omega (arith, h))

pending-found : find_by_id pending_row.event_id pending_table ≡ some pending_row
unfolding find_by_id
pending-found = refl

one-waits : Waiting 10 unlocked pending_table 1
one-waits = Waiting.waits (inl refl) refl Waiting.none_left

few-attempts : (q : Row) → In q pending_table → IsWaiting 10 q → q.delivery_attempts < max_attempts
few-attempts q (inl e) c =
    let none_yet : q.delivery_attempts ≡ 0 = rw e refl in omega (arith, none_yet)
few-attempts q (inr m) c = elim m [ ]

abbrev leased : Table
leased = (claim acknowledged 10 unlocked alice 2 100 pending_table).1

abbrev completed : Table
completed = (complete acknowledged 60 (record { uuid = 7 }) alice leased).1

delivery_reported_example :
    (cs : List ClaimedEvent) × (c : ClaimedEvent) × ((claim acknowledged 10 unlocked alice 2 100
        pending_table).0
      ≡ ok cs)
    × In c cs
    × Reports c pending_row
    × (time : Option ℕ) × IsReportedProcessed platform (codes "7") 7 time completed
delivery_reported_example =
    delivery_reported platform 10 unlocked alice 2 100 pending_table pending_table-IsSound
      (omega arith) pending_row leased History.here 60 completed (codes "7") one-waits (omega arith)
      few-attempts pending-found (inl refl) refl tt (Evolves-refl completed) refl
