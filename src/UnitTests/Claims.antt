-- ===== src/UnitTests/Claims.antt =====
-- The tests of claims, completions and the schema in crates/pulsestream-store/tests/postgres.rs.
use pulse_stream.Common.{
  ℕ, ◌≡◌, refl, Bool, true, false, codes, text_eq, ◌==◌, none, some, Result, ok, err, List, [], ◌∷◌,
  trim, trim_start, trim_end, is_whitespace, is_control, utf8, utf8_char,
}
use pulse_stream.Json.{string, number, is_null}
use pulse_stream.Event.{
  WorkerId, processing, processed, as_db_str, from_db_str, parse_source, parse_event_type,
  validate_label,
}
use pulse_stream.Idempotency.{
  compute, fingerprint_input, frame, to_be_bytes, push_bytes, write_canonical, sort_by_key,
  insert_entry, text_leb, write_entry, join_commas,
}
use pulse_stream.Store.Errors.{StoreError, SqlxError, acknowledged, commit, ask}
use pulse_stream.Store.Schema.{
  Row, Table, find_by_id, find_by_key, passes_checks, new_row, insert_event, has_key,
}
use pulse_stream.Store.Admit.{resolve, settle, run_transaction, admit}
use pulse_stream.Store.Lookup.{get, read_record, read_status}
use pulse_stream.Store.Claim.{
  ClaimedEvent, claim, has_expired, is_claimable, is_older, insert_row, sort_rows, candidates,
  is_chosen, lease_row, update_chosen, returned, to_claimed, collect, run_claim,
}
use pulse_stream.Store.Complete.{
  complete, complete_row, complete_rows, rows_affected, holds_claim, is_owned_by, is_processing,
}
use pulse_stream.Store.Trigger.{
  update_where, update_row, changes_content, is_consistent, is_null_column,
}
use pulse_stream.TestDatabase.Rows.{
  lifecycle, lease_active, status_counts, count_status, is_pending, is_processed, expire_lease,
  expire_rows, expire_row, rows_expired, is_expiring,
}
use pulse_stream.Tests.Samples.{alice, bob, unlocked}
use pulse_stream.UnitTests.Keys.{plain_writer}
use pulse_stream.UnitTests.Workers.{expire}
use pulse_stream.UnitTests.Admissions.{single, orders, one_event, id, keyed}

abbrev lease : ℕ
lease = 30000000

abbrev claim_at : ℕ → WorkerId → ℕ → Table → Result (List ClaimedEvent) StoreError × Table
claim_at now owner limit t = claim acknowledged now unlocked owner limit lease t

abbrev IsFirstDelivery : ClaimedEvent → Table → Type 0
IsFirstDelivery c t =
    (c.attempt ≡ 1)
    × (c.reclaimed ≡ false)
    × (lifecycle 11 c.event.id t
        ≡ some (record {
          status = "PROCESSING";
          owner = some 1;
          attempts = 1;
          lease_active = some true;
        }))

abbrev pub ClaimIsBoundedAndRecordsOwnerLeaseAndAttempt : Type 0
ClaimIsBoundedAndRecordsOwnerLeaseAndAttempt =
    let x = claim_at 10 alice 2 (keyed 5) in
    ((a : ClaimedEvent) × (b : ClaimedEvent) × (x.0 ≡ ok (a ∷ b ∷ []))
      × IsFirstDelivery a x.1
      × IsFirstDelivery b x.1)
    × (status_counts x.1 ≡ (3, 2, 0))
    × ((claim_at 11 alice 0 x.1).0 ≡ ok [])

abbrev pub UnexpiredLeaseIsNotStolen : Type 0
UnexpiredLeaseIsNotStolen =
    let held = (claim_at 10 alice 10 one_event).1 in
    (claim_at 11 bob 10 held ≡ (ok [], held))
    × (lifecycle 11 id held
        ≡ some (record {
          status = "PROCESSING";
          owner = some 1;
          attempts = 1;
          lease_active = some true;
        }))

-- The event of a claim, as it was admitted.
abbrev delivered : ℕ → Bool → ClaimedEvent
delivered n again = record {
  event = record {
    id = id;
    source = record { text = orders };
    event_type = record { text = codes "order.created" };
    payload = single (codes "k") (string (codes "k"));
    accepted_at = 1;
  };
  attempt = n;
  reclaimed = again;
}

abbrev reclaimed_table : Table
reclaimed_table = (claim_at 2000001 bob 1 (expire 2000000 1 (claim_at 10 alice 1 one_event).1)).1

abbrev pub ExpiredLeaseIsReclaimedWithIncrementedAttempts : Type 0
ExpiredLeaseIsReclaimedWithIncrementedAttempts =
    let done = complete acknowledged 2000002 id bob reclaimed_table in
    ((claim_at 2000001 bob 1 (expire 2000000 1 (claim_at 10 alice 1 one_event).1)).0
      ≡ ok (delivered 2 true ∷ []))
    × (done.0 ≡ ok true)
    × (lifecycle 2000003 id done.1
        ≡ some (record { status = "PROCESSED"; owner = none; attempts = 2; lease_active = none }))

abbrev pub StaleOwnerCannotCompleteAReclaimedEvent : Type 0
StaleOwnerCannotCompleteAReclaimedEvent =
    let done = (complete acknowledged 2000004 id bob reclaimed_table).1 in
    (complete acknowledged 2000002 id alice reclaimed_table ≡ (ok false, reclaimed_table))
    × (lifecycle 2000003 id reclaimed_table
        ≡ some (record {
          status = "PROCESSING";
          owner = some 2;
          attempts = 2;
          lease_active = some true;
        }))
    × ((complete acknowledged 2000004 id bob reclaimed_table).0 ≡ ok true)
    × (complete acknowledged 2000005 id bob done ≡ (ok false, done))
    × (complete acknowledged 2000006 id alice done ≡ (ok false, done))

-- An UPDATE of the row with the ID.
abbrev update : (Row → Row) → Result Table SqlxError
update set =
    update_where (λ a b. text_eq (write_canonical plain_writer a) (write_canonical plain_writer b))
      (λ r. r.event_id == 1) set one_event

abbrev IsRefusedUpdate : (Row → Row) → Type 0
IsRefusedUpdate set = (e : SqlxError) × (update set ≡ err e)

abbrev pub SchemaRejectsContentChangesAndInconsistentLifecycles : Type 0
SchemaRejectsContentChangesAndInconsistentLifecycles =
    IsRefusedUpdate (λ r. record r { payload = single (codes "x") (number (codes "1")) })
    × IsRefusedUpdate (λ r. record r { source = codes "other" })
    × IsRefusedUpdate (λ r. record r { idempotency_key = codes "other" })
    × IsRefusedUpdate (λ r. record r { event_id = 9 })
    × IsRefusedUpdate (λ r. record r { status = processed })
    × IsRefusedUpdate (λ r. record r { status = processing })

claim_tests_pass :
    ClaimIsBoundedAndRecordsOwnerLeaseAndAttempt × UnexpiredLeaseIsNotStolen
    × ExpiredLeaseIsReclaimedWithIncrementedAttempts × StaleOwnerCannotCompleteAReclaimedEvent
    × SchemaRejectsContentChangesAndInconsistentLifecycles
unfolding admit run_transaction commit ask insert_event passes_checks find_by_key find_by_id new_row
    settle resolve has_key is_null text_eq compute fingerprint_input frame to_be_bytes push_bytes
    write_canonical sort_by_key insert_entry text_leb write_entry join_commas plain_writer utf8
    utf8_char get read_record read_status from_db_str as_db_str claim run_claim candidates sort_rows
    insert_row is_older is_claimable has_expired is_chosen update_chosen lease_row returned collect
    to_claimed parse_source parse_event_type validate_label trim trim_start trim_end is_whitespace
    is_control complete complete_row complete_rows rows_affected holds_claim is_owned_by
    is_processing lifecycle lease_active expire_lease expire_rows expire_row rows_expired
    is_expiring status_counts count_status is_pending is_processed update_where update_row
    changes_content is_consistent is_null_column
claim_tests_pass = (
  ((_, _, refl, (refl, refl, refl), (refl, refl, refl)), refl, refl),
  (refl, refl),
  (refl, refl, refl),
  (refl, refl, refl, refl, refl),
  ((_, refl), (_, refl), (_, refl), (_, refl), (_, refl), (_, refl)),
)
