-- ===== src/UnitTests/Answers.antt =====
-- The tests of crates/pulsestream-api/src/events.rs and src/health.rs that read what the database
-- answers, or that it does not.
use pulse_stream.Common.{
  ℕ, ◌≡◌, refl, String, Text, Bytes, codes, text_eq, Option, none, some, ok, [], ◌∷◌, trim,
  trim_start, trim_end, is_whitespace, is_control, utf8, utf8_char, is_ascii_graphic,
}
use pulse_stream.Json.{is_null}
use pulse_stream.Event.{
  service_name, new_event, parse_source, parse_event_type, validate_label, parse_event_id,
}
use pulse_stream.Idempotency.{
  parse_key, compute, fingerprint_input, frame, to_be_bytes, push_bytes, write_canonical,
  sort_by_key, insert_entry, text_leb, write_entry, join_commas,
}
use pulse_stream.Store.Errors.{SqlxError, commit, ask, from_sqlx, is_outage, is_unavailable}
use pulse_stream.Store.Schema.{
  Table, has_key, find_by_id, find_by_key, passes_checks, new_row, insert_event,
}
use pulse_stream.Store.Admit.{resolve, settle, run_transaction, admit}
use pulse_stream.Store.Lookup.{get}
use pulse_stream.Api.Errors.{parts, retry_after}
use pulse_stream.Api.Health.{live, ready, database_ready}
use pulse_stream.Api.Response.{accepted_body, error_body, error_response, into_response}
use pulse_stream.Api.Events.{
  store_error, accepted, answer, prepare, submit, idempotency_key, ingest, get_event, find_id,
}
use pulse_stream.Api.Router.{
  Moment, Answer, alive, readiness, response, refused, look_up, run_handler, serve,
}
use pulse_stream.Tests.Samples.{healthy}
use pulse_stream.UnitTests.Keys.{plain_writer}
use pulse_stream.UnitTests.Server.{order, send, post_request, get_status, get_path, valid}

-- Nothing listens: the pool gives no connection in time.
abbrev pub unreachable : Moment
unreachable = record {
  fresh = record { uuid = 7 };
  clock = 0;
  now = 3;
  admit_io = record healthy { begin = some SqlxError.pool_timed_out };
  get_io = some SqlxError.pool_timed_out;
  pinged = none;
}

abbrev pub unavailable_answer : Answer
unavailable_answer = response (record {
  status = 503;
  replayed = none;
  retry_after = some 1;
  body =
      error_body "PERSISTENCE_UNAVAILABLE" (codes "event persistence is temporarily unavailable");
})

abbrev pub DatabaseOutageNeverReturns202 : Type 0
DatabaseOutageNeverReturns202 =
    (t : Table)
    → (send unreachable (post_request (some (codes "k")) valid) t ≡ (unavailable_answer, t))
      × (send unreachable (get_status (9 ∷ [])) t ≡ (unavailable_answer, t))

DatabaseOutageNeverReturns202_passes : DatabaseOutageNeverReturns202
unfolding serve run_handler ingest prepare submit answer idempotency_key parse_key utf8 utf8_char
    is_ascii_graphic new_event parse_source parse_event_type validate_label trim trim_start trim_end
    is_whitespace is_control is_null admit run_transaction ask from_sqlx is_outage is_unavailable
    store_error look_up get_event find_id parse_event_id get into_response error_response parts
    retry_after
DatabaseOutageNeverReturns202_passes t = (refl, refl)

abbrev pub at : ℕ → Moment
at n = record unreachable {
  fresh = record { uuid = n };
  now = n;
  admit_io = healthy;
  get_io = none;
  pinged = some (ok tt);
}

abbrev pub taken : ℕ → String → Answer
taken id replay = response (record {
  status = 202;
  replayed = some replay;
  retry_after = none;
  body = accepted_body (id ∷ []) "accepted";
})

abbrev refusal : String → Text → Answer
refusal code message =
    response
      (record { status = 409; replayed = none; retry_after = none; body = error_body code message })

abbrev pub key : Option Bytes
key = some (codes "order-12345")

abbrev pub first_table : Table
first_table = (send (at 1) (post_request key valid) []).1

-- The order of the fields of the request is not a part of `EventRequest`.
abbrev pub FirstRequestReplayAndConflict : Type 0
FirstRequestReplayAndConflict =
    ((send (at 1) (post_request key valid) []).0 ≡ taken 1 "false")
    × (send (at 2) (post_request key valid) first_table ≡ (taken 1 "true", first_table))
    × ((message : Text) × (send (at 3)
            (post_request key (record valid { payload = order (codes "99999") })) first_table
          ≡ (refusal "IDEMPOTENCY_CONFLICT" message, first_table)))
    × ((message : Text) × (send (at 4)
            (post_request key (record valid { event_type = codes "order.updated" })) first_table
          ≡ (refusal "IDEMPOTENCY_CONFLICT" message, first_table)))

FirstRequestReplayAndConflict_passes : FirstRequestReplayAndConflict
unfolding serve run_handler ingest prepare submit answer accepted idempotency_key parse_key utf8
    utf8_char is_ascii_graphic new_event parse_source parse_event_type validate_label trim
    trim_start trim_end is_whitespace is_control is_null compute fingerprint_input frame to_be_bytes
    push_bytes write_canonical sort_by_key insert_entry text_leb write_entry join_commas
    plain_writer admit commit run_transaction settle resolve ask insert_event passes_checks has_key
    text_eq find_by_key find_by_id new_row from_sqlx into_response error_response parts retry_after
FirstRequestReplayAndConflict_passes = (refl, refl, (_, refl), (_, refl))

abbrev pub SameKeyFromAnotherSourceIsASeparateEvent : Type 0
SameKeyFromAnotherSourceIsASeparateEvent =
    ((send (at 1) (post_request key valid) []).0 ≡ taken 1 "false")
    × ((send (at 2) (post_request key (record valid { source = codes "billing-api" }))
          first_table).0
        ≡ taken 2 "false")

SameKeyFromAnotherSourceIsASeparateEvent_passes : SameKeyFromAnotherSourceIsASeparateEvent
unfolding serve run_handler ingest prepare submit answer accepted idempotency_key parse_key utf8
    utf8_char is_ascii_graphic new_event parse_source parse_event_type validate_label trim
    trim_start trim_end is_whitespace is_control is_null compute fingerprint_input frame to_be_bytes
    push_bytes write_canonical sort_by_key insert_entry text_leb write_entry join_commas
    plain_writer admit commit run_transaction settle resolve ask insert_event passes_checks has_key
    text_eq find_by_key find_by_id new_row from_sqlx into_response
SameKeyFromAnotherSourceIsASeparateEvent_passes = (refl, refl)

abbrev pub LiveIsOkEvenWhenDatabaseIsDown : Type 0
LiveIsOkEvenWhenDatabaseIsDown =
    (t : Table)
    → send unreachable (get_path "/health/live") t
      ≡ (alive (record { status = "ok"; service = "pulsestream-api" }), t)

LiveIsOkEvenWhenDatabaseIsDown_passes : LiveIsOkEvenWhenDatabaseIsDown
unfolding serve run_handler live service_name
LiveIsOkEvenWhenDatabaseIsDown_passes t = refl

abbrev pub ReadyIs503WhenDatabaseIsDown : Type 0
ReadyIs503WhenDatabaseIsDown =
    (t : Table)
    → send unreachable (get_path "/health/ready") t ≡ (
      readiness (
        503,
        record {
          status = "unavailable";
          service = "pulsestream-api";
          checks = ("database", "unavailable") ∷ [];
        },
      ),
      t,
    )

ReadyIs503WhenDatabaseIsDown_passes : ReadyIs503WhenDatabaseIsDown
unfolding serve run_handler ready database_ready service_name
ReadyIs503WhenDatabaseIsDown_passes t = refl

abbrev pub UnknownRoutesAreNotFound : Type 0
UnknownRoutesAreNotFound = (t : Table) → send unreachable (get_path "/health") t ≡ (refused 404, t)

UnknownRoutesAreNotFound_passes : UnknownRoutesAreNotFound
unfolding serve
UnknownRoutesAreNotFound_passes t = refl

abbrev pub ReadyReportsDatabaseReady : Type 0
ReadyReportsDatabaseReady =
    (t : Table)
    → send (at 1) (get_path "/health/ready") t ≡ (
      readiness (
        200,
        record { status = "ok"; service = "pulsestream-api"; checks = ("database", "ready") ∷ [] },
      ),
      t,
    )

ReadyReportsDatabaseReady_passes : ReadyReportsDatabaseReady
unfolding serve run_handler ready database_ready service_name
ReadyReportsDatabaseReady_passes t = refl
