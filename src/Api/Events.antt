-- ===== src/Api/Events.antt =====
-- crates/pulsestream-api/src/events.rs. What third-party crates and the clocks give a handler is in
-- `Platform`, and the fresh event ID, the times and the database's answers are arguments.
pub mod Prepared
pub mod Answers
pub mod Retries
pub mod Reuse
pub mod Reported
use pulse_stream.Common.{
  ℕ, Bool, true, false, Text, Bytes, if◌then◌else◌, Option, none, some, Result, ok, err, ◌>>=◌,
  map_err,
}
use pulse_stream.Json.{Scalar, Value}
use pulse_stream.Event.{
  Event, EventId, UuidText, new_event, validation_message, parse_event_id, as_api_str,
}
use pulse_stream.Idempotency.{
  IdempotencyKey, IdempotencyKeyError, missing, invalid, RequestFingerprint, parse_key, compute,
}
use pulse_stream.Store.Errors.{SqlxError, StoreError, is_unavailable}
use pulse_stream.Store.Schema.{Table}
use pulse_stream.Store.Admit.{AdmitOutcome, AdmitIo, created, replayed, conflict, admit}
use pulse_stream.Store.Lookup.{EventRecord, get}
use pulse_stream.Api.Errors.{
  ApiError, JsonRejection, invalid_event, idempotency_conflict, invalid_event_id, event_not_found,
  persistence_unavailable, internal, from_json_rejection, from_key_error,
}
use pulse_stream.Api.Response.{Response, accepted_body, status_body}

abbrev pub max_body_bytes : ℕ
max_body_bytes = 65536

-- `HeaderValue::to_str`, the `uuid` crate, decimal printing, serde_json's writer of scalars,
-- SHA-256 and PostgreSQL's formatting of a timestamp.
pub record Platform : Type 0 where
  pub to_str : Bytes → Option Text
  pub uuid_text : UuidText
  pub decimal : ℕ → Text
  pub to_writer : Scalar → Bytes
  pub sha256 : Bytes → Bytes
  pub to_char : ℕ → Text

pub record EventRequest : Type 0 where
  pub source : Text
  pub event_type : Text
  pub payload : Value

-- What the event and its key come to before the database is asked.
pub record Admission : Type 0 where
  pub event : Event
  pub key : IdempotencyKey
  pub fingerprint : RequestFingerprint

unfoldable pub store_error : StoreError → ApiError
unfolding is_unavailable
store_error e = if is_unavailable e then persistence_unavailable else internal

module _ (p : Platform) where
  unfoldable pub idempotency_key : Option Bytes → Result IdempotencyKey IdempotencyKeyError
  unfolding parse_key
  idempotency_key none = err missing
  idempotency_key (some value) = elim (p.to_str value) [
    | none ↦ err invalid
    | some text ↦ parse_key text
  ]

  -- The part of `ingest` up to the fingerprint.
  unfoldable pub prepare :
      EventId → ℕ → Option Bytes → Result EventRequest JsonRejection → Result Admission ApiError
  unfolding idempotency_key new_event compute
  prepare fresh clock header body = do
    key ← map_err from_key_error (idempotency_key header)
    request ← map_err from_json_rejection body
    event ←
        map_err (λ e. invalid_event (validation_message p.decimal e))
          (new_event fresh clock request.source request.event_type request.payload)
    ok (record {
      event = event;
      key = key;
      fingerprint = compute p.to_writer p.sha256 event.source event.event_type event.payload;
    })

  unfoldable pub accepted : EventId → Bool → Response
  accepted id is_replay = record {
    status = 202;
    replayed = some (if is_replay then "true" else "false");
    retry_after = none;
    body = accepted_body (p.uuid_text.display id.uuid) "accepted";
  }

  unfoldable pub answer : AdmitOutcome → Result Response ApiError
  unfolding accepted
  answer (created id) = ok (accepted id false)
  answer (replayed id) = ok (accepted id true)
  answer conflict = err idempotency_conflict

  -- The part of `ingest` from the call of the store.
  unfoldable pub submit :
      AdmitIo → ℕ → Result Admission ApiError → Table → Result Response ApiError × Table
  unfolding admit store_error answer
  submit io now (err e) table = (err e, table)
  submit io now (ok a) table =
      let (outcome, after) = admit io now a.event a.key a.fingerprint table in
      (map_err store_error outcome >>= answer, after)

  unfoldable pub ingest :
      EventId
      → ℕ
      → AdmitIo
      → ℕ
      → Option Bytes
      → Result EventRequest JsonRejection
      → Table
      → Result Response ApiError × Table
  unfolding prepare submit
  ingest fresh clock io now header body table =
      submit io now (prepare fresh clock header body) table

  unfoldable pub status_response : EventRecord → Response
  status_response r = record {
    status = 200;
    replayed = none;
    retry_after = none;
    body = status_body (record {
      event_id = p.uuid_text.display r.event_id.uuid;
      source = r.source;
      event_type = r.event_type;
      status = as_api_str r.status;
      accepted_at = r.accepted_at;
      processed_at = r.processed_at;
    });
  }

  unfoldable pub found : Option EventRecord → Result Response ApiError
  unfolding status_response
  found none = err event_not_found
  found (some r) = ok (status_response r)

  unfoldable pub find_id : Option EventId → Result EventId ApiError
  find_id none = err invalid_event_id
  find_id (some id) = ok id

  -- `events::get`.
  unfoldable pub get_event : Option SqlxError → Text → Table → Result Response ApiError
  unfolding find_id get store_error found
  get_event io path table = do
    id ← find_id (parse_event_id p.uuid_text path)
    r ← map_err store_error (get p.to_char io id table)
    found r
