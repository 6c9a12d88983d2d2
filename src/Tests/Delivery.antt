-- ===== src/Tests/Delivery.antt =====
-- Instances for claims and completions.
use pulse_stream.Common.{
  ◌+◌, ◌≡◌, ◌≢◌, ◌⊎◌, ap, refl, inl, inr, true, false, leb, any, min, In, none, some, ok, List, [],
  ◌∷◌, is_whitespace, is_control, trim, trim_start, trim_end, arith,
}
use pulse_stream.Event.{
  processing, processed, as_db_str, parse_source, parse_event_type, validate_label,
}
use pulse_stream.Store.Errors.{acknowledged, commit}
use pulse_stream.Store.Schema.{Row, Table, find_by_id}
use pulse_stream.Store.Invariant.{IsSound, Evolves}
use pulse_stream.Store.Claim.{
  ClaimedEvent, max_attempts, max_limit, has_expired, is_claimable, is_older, insert_row, sort_rows,
  candidates, is_chosen, lease_row, update_chosen, returned, to_claimed, collect, run_claim, claim,
}
use pulse_stream.Store.Claim.Returned.{Reports, claim_returns}
use pulse_stream.Store.Claim.Bound.{claim_total}
use pulse_stream.Store.Claim.Waiting.{IsWaiting, IsBefore}
use pulse_stream.Store.Claim.Taken.{oldest_first}
use pulse_stream.Store.Complete.{complete}
use pulse_stream.Store.Complete.Exact.{IsHeldBy, complete_exact}
use pulse_stream.Store.History.{Step, History, History-IsSound, History-Evolves}
use pulse_stream.Store.Leases.Exclusive.{lease_exclusive, lease_completes}
use pulse_stream.Tests.Samples.{
  order, alice, bob, unlocked, other_row, pending_table, claimed_table, two_table,
  two_table-IsSound, pending_table-IsSound, claimed_table-IsSound,
}

abbrev delivery : ClaimedEvent
delivery = record { event = record order { accepted_at = 3 }; attempt = 1; reclaimed = false }

-- Alice's claim of the pending event, at 10 for 100 microseconds.
alice-claims :
    claim acknowledged 10 unlocked alice 2 100 pending_table ≡ (ok (delivery ∷ []), claimed_table)
unfolding claim commit run_claim candidates sort_rows insert_row is_older is_claimable has_expired
    is_chosen update_chosen lease_row returned collect to_claimed parse_source parse_event_type
    validate_label trim trim_start trim_end is_whitespace is_control as_db_str
alice-claims = refl

alice-answer : (claim acknowledged 10 unlocked alice 2 100 pending_table).0 ≡ ok (delivery ∷ [])
alice-answer = ap (λ x. x.0) alice-claims

abbrev leased : Table
leased = (claim acknowledged 10 unlocked alice 2 100 pending_table).1

claim_returns_example :
    (r : Row) × (find_by_id delivery.event.id.uuid pending_table ≡ some r)
    × IsWaiting 10 r
    × (unlocked r.event_id ≡ false)
    × Reports delivery r
    × (find_by_id delivery.event.id.uuid leased
        ≡ some (record r {
          status = processing;
          processing_owner = some 1;
          processing_started_at = some 10;
          lease_expires_at = some 110;
          delivery_attempts = r.delivery_attempts + 1;
        }))
claim_returns_example =
    claim_returns 10 unlocked alice 2 100 pending_table pending_table-IsSound delivery (omega arith)
      alice-answer (inl refl)

few-attempts :
    any
      (λ r. leb max_attempts r.delivery_attempts)
      (candidates 10 unlocked (min 2 max_limit) pending_table)
    ≡ false
unfolding candidates sort_rows insert_row is_older is_claimable
few-attempts = refl

claim_total_example :
    (cs : List ClaimedEvent) × ((claim acknowledged 10 unlocked alice 2 100 pending_table).0
      ≡ ok cs)
claim_total_example =
    claim_total 10 unlocked alice 2 100 pending_table pending_table-IsSound few-attempts

complete_exact_example :
    ((r : Row) × (find_by_id 7 claimed_table ≡ some r)
      × IsHeldBy alice r
      × ((complete acknowledged 20 order.id alice claimed_table).0 ≡ ok true)
      × (find_by_id 7 (complete acknowledged 20 order.id alice claimed_table).1
          ≡ some (record r {
            status = processed;
            processed_at = some 20;
            processing_owner = none;
            lease_expires_at = none;
          })))
    ⊎ (¬ ((r : Row) × (find_by_id 7 claimed_table ≡ some r) × IsHeldBy alice r)
        × (complete acknowledged 20 order.id alice claimed_table ≡ (ok false, claimed_table)))
complete_exact_example = complete_exact 20 order.id alice claimed_table claimed_table-IsSound

-- Bob asks at 50, and gets nothing.
abbrev bob_asks : History leased (claim acknowledged 50 unlocked bob 1 100 leased).1
bob_asks = History.next History.here (Step.claims acknowledged 50 unlocked bob 1 100)

-- At 60 there is another event, which bob gets.
lease_completes_example :
    ((complete acknowledged 60 delivery.event.id alice
        (claim acknowledged 50 unlocked bob 1 100 leased).1).0
      ≡ ok true)
    ⊎ ((r : Row) × (find_by_id delivery.event.id.uuid
            (claim acknowledged 50 unlocked bob 1 100 leased).1
          ≡ some r)
        × (r.status ≡ processed))
lease_completes_example =
    lease_completes 10 unlocked alice 2 100 pending_table pending_table-IsSound (omega arith)
      alice-answer delivery (inl refl) _ bob_asks 60 (tt, omega arith)

History-IsSound_example : IsSound (claim acknowledged 50 unlocked bob 1 100 claimed_table).1
History-IsSound_example =
    History-IsSound (History.next History.here (Step.claims acknowledged 50 unlocked bob 1 100))
      claimed_table-IsSound

History-Evolves_example :
    Evolves claimed_table (claim acknowledged 50 unlocked bob 1 100 claimed_table).1
History-Evolves_example =
    History-Evolves (History.next History.here (Step.claims acknowledged 50 unlocked bob 1 100))
      claimed_table-IsSound

-- Two events wait: alice takes one, and bob the other.
alice-one : (claim acknowledged 10 unlocked alice 1 100 two_table).0 ≡ ok (delivery ∷ [])
unfolding claim commit run_claim candidates sort_rows insert_row is_older is_claimable has_expired
    is_chosen update_chosen lease_row returned collect to_claimed parse_source parse_event_type
    validate_label trim trim_start trim_end is_whitespace is_control as_db_str
alice-one = refl

oldest_first_example :
    ((d : ClaimedEvent) × In d (delivery ∷ []) × (d.event.id.uuid ≡ 8))
    ⊎ ((r : Row) × (find_by_id delivery.event.id.uuid two_table ≡ some r) × IsBefore r other_row)
oldest_first_example =
    oldest_first 10 unlocked alice 1 100 two_table two_table-IsSound (omega arith) delivery
      other_row alice-one (inl refl) (inr (inl refl)) (inl refl) refl

abbrev one_leased : Table
one_leased = (claim acknowledged 10 unlocked alice 1 100 two_table).1

abbrev other_delivery : ClaimedEvent
other_delivery = record {
  event = record order { id = record { uuid = 8 }; accepted_at = 4 };
  attempt = 1;
  reclaimed = false;
}

bob-other : (claim acknowledged 50 unlocked bob 2 100 one_leased).0 ≡ ok (other_delivery ∷ [])
unfolding claim commit run_claim candidates sort_rows insert_row is_older is_claimable has_expired
    is_chosen update_chosen lease_row returned collect to_claimed parse_source parse_event_type
    validate_label trim trim_start trim_end is_whitespace is_control as_db_str
bob-other = refl

lease_exclusive_example : other_delivery.event.id.uuid ≢ delivery.event.id.uuid
lease_exclusive_example =
    lease_exclusive 10 unlocked alice 1 100 two_table two_table-IsSound (omega arith) alice-one
      delivery (inl refl) one_leased History.here 50 unlocked bob 2 100 other_delivery tt
      (omega arith) (omega arith) bob-other (inl refl)
