-- ===== src/Tests/Requests.antt =====
-- Instances for the fingerprints: an object whose entries stand in two orders.
use mathlib.Core.Quot
use pulse_stream.Common.{
  ℕ, ◌≡◌, ◌≢◌, ◌⊎◌, ◌↔◌, refl, true, Bytes, codes, Option, none, some, Result, ok, err, [], ◌∷◌,
  trim, trim_start, trim_end, is_whitespace, is_control, utf8, utf8_char, is_ascii_graphic, arith,
}
use pulse_stream.Json.{Value, is_null}
use pulse_stream.Event.{EventId, new_event, parse_source, parse_event_type, validate_label}
use pulse_stream.Idempotency.{
  parse_key, compute, push_bytes, to_be_bytes, frame, fingerprint_input, write_canonical,
  sort_by_key, insert_entry, text_leb, write_entry, join_commas,
}
use pulse_stream.Idempotency.Framing.{IsHashable}
use pulse_stream.Idempotency.Canonical.Normal.{SameValue}
use pulse_stream.Idempotency.Canonical.Scalars.{IsJson}
use pulse_stream.Idempotency.Canonical.Payloads.{
  Payload, canonical_payload, canonical_payload-eq_iff,
}
use pulse_stream.Idempotency.Requests.{compute-eq_iff}
use pulse_stream.Store.Errors.{commit, ask, from_sqlx}
use pulse_stream.Store.Schema.{Table, find_by_id, find_by_key, passes_checks, new_row, insert_event}
use pulse_stream.Store.Invariant.{Evolves-refl}
use pulse_stream.Store.Admit.{resolve, settle, run_transaction, admit}
use pulse_stream.Store.Admit.Retry.{IsHealthy}
use pulse_stream.Api.Errors.{JsonRejection, idempotency_conflict}
use pulse_stream.Api.Events.{
  Platform, EventRequest, Admission, accepted, answer, prepare, submit, idempotency_key, ingest,
}
use pulse_stream.Api.Events.Reuse.{AreComparable, SameRequest, key_reuse}
use pulse_stream.Tests.Samples.{zeros, healthy, order}
use pulse_stream.Tests.Core.{ab, ba}
use pulse_stream.Tests.Writer.{shift, shifting, shifting-IsJsonWriter}

ab-IsJson : IsJson ab
unfolding IsJson
ab-IsJson = (tt, (tt, tt))

ba-IsJson : IsJson ba
unfolding IsJson
ba-IsJson = (tt, (tt, tt))

abbrev ab_payload : Payload
ab_payload = Quot.mk (ab, ab-IsJson)

abbrev ba_payload : Payload
ba_payload = Quot.mk (ba, ba-IsJson)

canonical_payload-eq_iff_example :
    (canonical_payload shifting shifting-IsJsonWriter ab_payload ≡ write_canonical shifting ab)
    × ((canonical_payload shifting shifting-IsJsonWriter ab_payload
          ≡ canonical_payload shifting shifting-IsJsonWriter ba_payload)
        ↔ (ab_payload ≡ ba_payload))
canonical_payload-eq_iff_example =
    canonical_payload-eq_iff shifting shifting-IsJsonWriter (ab, ab-IsJson) ab_payload ba_payload

ab_fits : IsHashable shifting order.source order.event_type ab
unfolding utf8 utf8_char write_canonical sort_by_key insert_entry text_leb write_entry join_commas
    shifting shift
ab_fits = record { source_fits = omega arith; type_fits = omega arith; payload_fits = omega arith }

ba_fits : IsHashable shifting order.source order.event_type ba
unfolding utf8 utf8_char write_canonical sort_by_key insert_entry text_leb write_entry join_commas
    shifting shift
ba_fits = record { source_fits = omega arith; type_fits = omega arith; payload_fits = omega arith }

-- A digest that tells every two inputs apart.
compute-eq_iff_example :
    (compute shifting (λ b. b) order.source order.event_type ab
      ≡ compute shifting (λ b. b) order.source order.event_type ba)
    ↔ ((order.source ≡ order.source) × (order.event_type ≡ order.event_type) × SameValue ab ba)
compute-eq_iff_example =
    compute-eq_iff shifting (λ b. b) order.source order.source order.event_type order.event_type ab
      ba shifting-IsJsonWriter ab-IsJson ba-IsJson ab_fits ba_fits (λ h. h)

abbrev platform : Platform
platform = record {
  to_str = λ value. some value;
  uuid_text = record { try_parse = λ t. none; display = λ n. n ∷ [] };
  decimal = λ n. n ∷ [];
  to_writer = shifting;
  sha256 = λ b. zeros 32;
  to_char = λ n. n ∷ [];
}

abbrev first_id : EventId
first_id = record { uuid = 7 }

abbrev second_id : EventId
second_id = record { uuid = 9 }

abbrev header : Option Bytes
header = some (codes "k1")

abbrev request : Value → Result EventRequest JsonRejection
request payload =
    ok (record { source = codes "shop"; event_type = codes "order"; payload = payload })

abbrev admitted : EventId → ℕ → Value → Admission
admitted id clock payload = record {
  event = record {
    id = id;
    source = order.source;
    event_type = order.event_type;
    payload = payload;
    accepted_at = clock;
  };
  key = record { text = codes "k1" };
  fingerprint = compute shifting (λ b. zeros 32) order.source order.event_type payload;
}

abbrev written : Table
written = (ingest platform first_id 0 healthy 3 header (request ab) []).1

first-prepared : prepare platform first_id 0 header (request ab) ≡ ok (admitted first_id 0 ab)
unfolding prepare idempotency_key parse_key utf8 utf8_char is_ascii_graphic new_event parse_source
    parse_event_type validate_label trim trim_start trim_end is_whitespace is_control is_null
first-prepared = refl

second-prepared : prepare platform second_id 5 header (request ba) ≡ ok (admitted second_id 5 ba)
unfolding prepare idempotency_key parse_key utf8 utf8_char is_ascii_graphic new_event parse_source
    parse_event_type validate_label trim trim_start trim_end is_whitespace is_control is_null
second-prepared = refl

same-input :
    fingerprint_input shifting order.source order.event_type ab
    ≡ fingerprint_input shifting order.source order.event_type ba
unfolding fingerprint_input frame to_be_bytes push_bytes utf8 utf8_char write_canonical sort_by_key
    insert_entry text_leb write_entry join_commas shifting shift
same-input = refl

are_comparable : AreComparable platform (admitted first_id 0 ab) (admitted second_id 5 ba)
are_comparable = record {
  first_json = ab-IsJson;
  second_json = ba-IsJson;
  first_hashable = ab_fits;
  second_hashable = ba_fits;
  no_collision = λ h. same-input;
}

is-written : written ≢ []
unfolding ingest prepare submit answer idempotency_key parse_key utf8 utf8_char is_ascii_graphic
    new_event parse_source parse_event_type validate_label trim trim_start trim_end is_whitespace
    is_control is_null admit commit run_transaction settle resolve ask insert_event passes_checks
    find_by_key find_by_id new_row from_sqlx compute
is-written h = cc

healthy-works : IsHealthy healthy
healthy-works = record { begins = refl; inserts = refl; selects = refl; commits = refl }

key_reuse_example :
    (SameRequest (admitted first_id 0 ab) (admitted second_id 5 ba)
      × (ingest platform second_id 5 healthy 6 header (request ba) written
          ≡ (ok (accepted platform first_id true), written)))
    ⊎ ((SameRequest (admitted first_id 0 ab) (admitted second_id 5 ba) → ⊥)
        × (ingest platform second_id 5 healthy 6 header (request ba) written
            ≡ (err idempotency_conflict, written)))
key_reuse_example =
    key_reuse platform first_id 0 healthy 3 header (request ab) [] (admitted first_id 0 ab)
      second_id 5 healthy 6 (request ba) written (admitted second_id 5 ba) (λ b. refl)
      shifting-IsJsonWriter first-prepared second-prepared refl are_comparable is-written
      (Evolves-refl written) healthy-works
