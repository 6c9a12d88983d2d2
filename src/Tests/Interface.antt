-- ===== src/Tests/Interface.antt =====
-- Instances for the HTTP interface, with a small platform.
use pulse_stream.Common.{
  ℕ, ◌≤◌, ◌≡◌, ◌≢◌, ◌⊎◌, refl, Bool, true, false, Text, Bytes, codes, Option, none, some, Result,
  ok, err, [], ◌∷◌, ◌++◌, trim, trim_start, trim_end, is_whitespace, is_control, utf8, utf8_char,
  is_ascii_graphic,
}
use pulse_stream.Json.{scalar, bool, is_null}
use pulse_stream.Event.{EventId, new_event, parse_source, parse_event_type, validate_label}
use pulse_stream.Idempotency.{parse_key}
use pulse_stream.Store.Errors.{SqlxError, lost, commit, ask, from_sqlx, is_outage, is_unavailable}
use pulse_stream.Store.Schema.{Table, find_by_id, find_by_key, passes_checks, new_row, insert_event}
use pulse_stream.Store.Invariant.{Evolves-refl}
use pulse_stream.Store.Admit.{AdmitIo, resolve, settle, run_transaction, admit}
use pulse_stream.Store.Admit.Retry.{IsHealthy}
use pulse_stream.Api.Errors.{JsonRejection, persistence_unavailable}
use pulse_stream.Api.Response.{EventStatusResponse, status_body, error_response}
use pulse_stream.Api.Events.{
  Platform, EventRequest, Admission, accepted, answer, prepare, submit, store_error,
  idempotency_key, ingest, get_event,
}
use pulse_stream.Api.Events.Answers.{IsStored, ingest-accepted, ingest_failed}
use pulse_stream.Api.Events.Retries.{ingest_retry, ingest_visible}
use pulse_stream.Tests.Samples.{zeros, healthy}

abbrev first_of : Text → Option ℕ
first_of [] = none
first_of (c ∷ s) = some c

abbrev pub platform : Platform
platform = record {
  to_str = λ value. some value;
  uuid_text = record { try_parse = first_of; display = λ n. n ∷ [] };
  decimal = λ n. n ∷ [];
  to_writer = λ s. [];
  sha256 = λ b. zeros 32;
  to_char = λ n. n ∷ [];
}

abbrev fresh : EventId
fresh = record { uuid = 7 }

abbrev header : Option Bytes
header = some (codes "k1")

abbrev body : Result EventRequest JsonRejection
body =
    ok (record { source = codes "shop"; event_type = codes "order"; payload = scalar (bool true) })

-- The connection breaks after the commit.
abbrev breaking : AdmitIo
breaking = record { begin = none; insert = none; select = none; reply = lost SqlxError.io }

abbrev written : Table
written = (ingest platform fresh 0 breaking 3 header body []).1

is-written : written ≢ []
unfolding ingest prepare submit answer idempotency_key parse_key utf8 utf8_char is_ascii_graphic
    new_event parse_source parse_event_type validate_label trim trim_start trim_end is_whitespace
    is_control is_null admit commit run_transaction settle resolve ask insert_event passes_checks
    find_by_key find_by_id new_row from_sqlx
is-written h = cc

healthy-works : IsHealthy healthy
healthy-works = record { begins = refl; inserts = refl; selects = refl; commits = refl }

ingest_retry_example :
    ingest platform (record { uuid = 9 }) 0 healthy 5 header body written
    ≡ (ok (accepted platform fresh true), written)
ingest_retry_example =
    ingest_retry platform fresh 0 breaking 3 header body [] (λ b. refl) is-written
      (record { uuid = 9 }) 0 healthy 5 written (Evolves-refl written) healthy-works

ingest_visible_example :
    (request : EventRequest) × (s : EventStatusResponse) × (body ≡ ok request)
    × (get_event platform none (7 ∷ []) written
        ≡ ok (record { status = 200; replayed = none; retry_after = none; body = status_body s }))
    × (s.event_id ≡ 7 ∷ [])
    × (s.source ≡ request.source)
    × (s.event_type ≡ request.event_type)
    × (s.accepted_at ≡ 3 ∷ [])
ingest_visible_example =
    ingest_visible platform fresh 0 breaking 3 header body [] (λ b. refl) is-written (7 ∷ [])
      written refl (Evolves-refl written)

is-accepted :
    (ingest platform fresh 0 healthy 3 header body []).0 ≡ ok (accepted platform fresh false)
unfolding ingest prepare submit answer idempotency_key parse_key utf8 utf8_char is_ascii_graphic
    new_event parse_source parse_event_type validate_label trim trim_start trim_end is_whitespace
    is_control is_null admit commit run_transaction settle resolve ask insert_event passes_checks
    find_by_key find_by_id new_row from_sqlx
is-accepted = refl

ingest-accepted_example :
    (a : Admission) × (id : EventId) × (replay : Bool) × (prepare platform fresh 0 header body
      ≡ ok a)
    × (accepted platform fresh false ≡ accepted platform id replay)
    × IsStored a id (ingest platform fresh 0 healthy 3 header body []).1
ingest-accepted_example = ingest-accepted platform fresh 0 healthy 3 header body [] is-accepted

is-failed : (ingest platform fresh 0 breaking 3 header body []).0 ≡ err persistence_unavailable
unfolding ingest store_error is_unavailable is_outage prepare submit answer idempotency_key
    parse_key utf8 utf8_char is_ascii_graphic new_event parse_source parse_event_type validate_label
    trim trim_start trim_end is_whitespace is_control is_null admit commit run_transaction settle
    resolve ask insert_event passes_checks find_by_key find_by_id new_row from_sqlx
is-failed = refl

ingest_failed_example :
    (written ≡ [])
    ⊎ ((500 ≤ (error_response persistence_unavailable).status)
        × ((f : SqlxError) × (a : Admission) × (breaking.reply ≡ lost f)
            × (prepare platform fresh 0 header body ≡ ok a)
            × (written ≡ [] ++ new_row 3 a.event a.key a.fingerprint ∷ [])))
ingest_failed_example = ingest_failed platform fresh 0 breaking 3 header body [] is-failed
