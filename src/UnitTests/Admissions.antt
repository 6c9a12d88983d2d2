-- ===== src/UnitTests/Admissions.antt =====
-- The tests of admissions in crates/pulsestream-store/tests/postgres.rs, with a concurrent test in
-- one order of its calls. A checksum stands for SHA-256.
use pulse_stream.Common.{
  ℕ, zero, suc, ◌+◌, ◌≡◌, refl, true, Text, codes, text_eq, none, some, Result, ok, List, [], ◌∷◌,
  ◌++◌, trim, trim_start, trim_end, is_whitespace, is_control, utf8, utf8_char,
}
use pulse_stream.Json.{
  Scalar, Value, string, number, array, item, no_item, scalar, with_entry, no_entry, object,
  is_null,
}
use pulse_stream.Event.{
  EventId, pending, as_db_str, from_db_str, parse_source, parse_event_type, validate_label,
}
use pulse_stream.Idempotency.{
  compute, fingerprint_input, frame, to_be_bytes, push_bytes, write_canonical, sort_by_key,
  insert_entry, text_leb, write_entry, join_commas,
}
use pulse_stream.Store.Errors.{StoreError, commit, ask}
use pulse_stream.Store.Schema.{
  Table, find_by_id, find_by_key, passes_checks, new_row, insert_event, has_key,
}
use pulse_stream.Store.Admit.{
  AdmitOutcome, created, replayed, conflict, resolve, settle, run_transaction, admit,
}
use pulse_stream.Store.Lookup.{get, read_record, read_status}
use pulse_stream.TestDatabase.Rows.{count_for_source}
use pulse_stream.Tests.Samples.{healthy, zeros}
use pulse_stream.UnitTests.Keys.{plain_writer}
use pulse_stream.UnitTests.Server.{checksum}

abbrev pub single : Text → Scalar → Value
single k v = object (with_entry k (scalar v) no_entry)

-- The test's `admit`; the ID that is given to the event is also the time.
abbrev pub admit_at : ℕ → Text → Text → Value → Table → Result AdmitOutcome StoreError × Table
admit_at id source key payload t =
    admit healthy id
      (record {
        id = record { uuid = id };
        source = record { text = source };
        event_type = record { text = codes "order.created" };
        payload = payload;
        accepted_at = 0;
      })
      (record { text = key })
      (compute plain_writer (λ b. checksum b ∷ zeros 31) (record { text = source })
        (record { text = codes "order.created" }) payload)
      t

abbrev pub orders : Text
orders = codes "orders-api"

abbrev pub one_event : Table
one_event = (admit_at 1 orders (codes "k") (single (codes "k") (string (codes "k"))) []).1

abbrev pub id : EventId
id = record { uuid = 1 }

abbrev pub NewKeyCreatesOnePendingEvent : Type 0
NewKeyCreatesOnePendingEvent =
    (get (λ n. n ∷ []) none id one_event
      ≡ ok (
          some (record {
            event_id = id;
            source = orders;
            event_type = codes "order.created";
            status = pending;
            accepted_at = 1 ∷ [];
            processed_at = none;
          })))
    × (count_for_source orders one_event ≡ 1)
    × (get (λ n. n ∷ []) none (record { uuid = 9 }) one_event ≡ ok none)

abbrev pub ConflictingReuseIsRejectedAndNeverRewritesTheRow : Type 0
ConflictingReuseIsRejectedAndNeverRewritesTheRow =
    (admit_at 2 orders (codes "k") (single (codes "different") (Scalar.bool true)) one_event
      ≡ (ok conflict, one_event))
    × (count_for_source orders one_event ≡ 1)

abbrev ordered : Value → Value → Value
ordered a b = object (with_entry (codes "order_id") a (with_entry (codes "lines") b no_entry))

-- The same object, with its entries in the other order.
abbrev reordered : Value → Value → Value
reordered a b = object (with_entry (codes "lines") b (with_entry (codes "order_id") a no_entry))

abbrev pub IdenticalReplayReturnsOriginalEventWithoutNewRow : Type 0
IdenticalReplayReturnsOriginalEventWithoutNewRow =
    let order_id = scalar (string (codes "12345")) in
    let lines =
      array (item (scalar (number (codes "1"))) (item (scalar (number (codes "2"))) no_item)) in
    let first = admit_at 1 orders (codes "k") (ordered order_id lines) [] in
    (first.0 ≡ ok (created id))
    × (admit_at 2 orders (codes "k") (reordered order_id lines) first.1
        ≡ (ok (replayed id), first.1))
    × (count_for_source orders first.1 ≡ 1)

abbrev pub SameKeyUnderDifferentSourcesIsIndependent : Type 0
SameKeyUnderDifferentSourcesIsIndependent =
    let payload = single (codes "k") (string (codes "abc123")) in
    let first = admit_at 1 orders (codes "abc123") payload [] in
    (first.0 ≡ ok (created id))
    × ((admit_at 2 (codes "billing-api") (codes "abc123") payload first.1).0
        ≡ ok (created (record { uuid = 2 })))

-- Requests with one key and as many payloads.
abbrev contested : ℕ → List (Result AdmitOutcome StoreError) × Table
contested zero = ([], [])
contested (suc n) =
    let (outcomes, t) = contested n in
    let (o, u) =
      admit_at (suc n) orders (codes "contested")
        (single (codes "variant") (number ((48 + n) ∷ []))) t in
    (outcomes ++ o ∷ [], u)

abbrev conflicts : ℕ → List (Result AdmitOutcome StoreError)
conflicts zero = []
conflicts (suc n) = ok conflict ∷ conflicts n

abbrev pub ConcurrentConflictingAdmissionsLeaveExactlyOneWinner : Type 0
ConcurrentConflictingAdmissionsLeaveExactlyOneWinner =
    ((contested 50).0 ≡ ok (created id) ∷ conflicts 49)
    × (count_for_source orders (contested 50).1 ≡ 1)

-- A number of events, each with its key.
abbrev pub keyed : ℕ → Table
keyed zero = []
keyed (suc n) =
    (admit_at (suc n) orders (codes "k" ++ (48 + n) ∷ [])
      (single (codes "k") (string (codes "k" ++ (48 + n) ∷ []))) (keyed n)).1

admission_tests_pass :
    NewKeyCreatesOnePendingEvent × ConflictingReuseIsRejectedAndNeverRewritesTheRow
    × IdenticalReplayReturnsOriginalEventWithoutNewRow × SameKeyUnderDifferentSourcesIsIndependent
    × ConcurrentConflictingAdmissionsLeaveExactlyOneWinner
unfolding admit run_transaction commit ask insert_event passes_checks find_by_key find_by_id new_row
    settle resolve has_key is_null text_eq compute fingerprint_input frame to_be_bytes push_bytes
    write_canonical sort_by_key insert_entry text_leb write_entry join_commas plain_writer utf8
    utf8_char get read_record read_status from_db_str as_db_str parse_source parse_event_type
    validate_label trim trim_start trim_end is_whitespace is_control count_for_source
admission_tests_pass =
    ((refl, refl, refl), (refl, refl), (refl, refl, refl), (refl, refl), (refl, refl))
