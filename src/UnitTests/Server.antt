-- ===== src/UnitTests/Server.antt =====
-- The tests of crates/pulsestream-api/src/events.rs that a request without a valid key, event or ID
-- is refused, whatever the database would answer, with a small platform.
use pulse_stream.Common.{
  ℕ, ◌+◌, ◌*◌, ◌/◌, ◌%◌, ◌≡◌, refl, ◌||◌, ◌&&◌, all, String, Text, Bytes, codes, leb, ◌==◌,
  if◌then◌else◌, Option, none, some, [], ◌∷◌, All, trim, trim_start, trim_end, is_whitespace,
  is_control, utf8, utf8_char, is_ascii_graphic,
}
use pulse_stream.Json.{Value, scalar, null, string, object, with_entry, no_entry, is_null}
use pulse_stream.Event.{
  new_event, parse_source, parse_event_type, validate_label, validation_message, parse_event_id,
}
use pulse_stream.Idempotency.{parse_key}
use pulse_stream.Store.Schema.{Table}
use pulse_stream.Api.Errors.{from_json_rejection, from_key_error, parts, retry_after}
use pulse_stream.Api.Response.{error_body, error_response, into_response}
use pulse_stream.Api.Events.{
  Platform, EventRequest, prepare, submit, idempotency_key, ingest, get_event, find_id,
}
use pulse_stream.Api.Router.{MethodFilter, Moment, Answer, response, look_up, run_handler, serve}
use pulse_stream.Tests.Samples.{zeros}
use pulse_stream.Tests.Server.{HttpRequest, small_axum}
use pulse_stream.UnitTests.Events.{repeat}
use pulse_stream.UnitTests.Keys.{plain_writer}

-- A checksum tells the inputs of these tests apart.
abbrev pub checksum : Bytes → ℕ
checksum [] = 7
checksum (b ∷ bs) = b + 257 * checksum bs

abbrev pub one_number : Text → Option ℕ
one_number (n ∷ []) = some n
one_number [] = none
one_number (n ∷ m ∷ s) = none

abbrev pub platform : Platform
platform = record {
  to_str =
      λ value. if all (λ b. (b == 9) || (leb 32 b && leb b 126)) value then some value else none;
  uuid_text = record { try_parse = one_number; display = λ n. n ∷ [] };
  decimal = λ n. (48 + n / 100) ∷ (48 + n / 10 % 10) ∷ (48 + n % 10) ∷ [];
  to_writer = plain_writer;
  sha256 = λ b. checksum b ∷ zeros 31;
  to_char = λ n. n ∷ [];
}

abbrev pub send : Moment → HttpRequest → Table → Answer × Table
send m q t = serve small_axum platform m q t

abbrev pub post_request : Option Bytes → EventRequest → HttpRequest
post_request key body = record {
  method = MethodFilter.post;
  path = "/v1/events";
  segment = [];
  key = key;
  size = 100;
  body = body;
}

abbrev pub get_status : Text → HttpRequest
get_status id =
    record (post_request none (record { source = []; event_type = []; payload = scalar null })) {
      method = MethodFilter.get;
      path = "/v1/events/{event_id}";
      segment = id;
    }

abbrev pub get_path : String → HttpRequest
get_path path = record (get_status []) { path = path }

abbrev pub order : Text → Value
order id = object (with_entry (codes "order_id") (scalar (string id)) no_entry)

abbrev pub valid : EventRequest
valid = record {
  source = codes "orders-api";
  event_type = codes "order.created";
  payload = order (codes "12345");
}

abbrev pub IsRejected : HttpRequest → ℕ → String → Text → Type 0
IsRejected q status code message =
    (m : Moment) (t : Table)
    → send m q t ≡ (
      response (record {
        status = status;
        replayed = none;
        retry_after = none;
        body = error_body code message;
      }),
      t,
    )

abbrev pub RequiresAnIdempotencyKey : Type 0
RequiresAnIdempotencyKey =
    (message : Text) × IsRejected (post_request none valid) 400 "IDEMPOTENCY_KEY_REQUIRED" message

RequiresAnIdempotencyKey_passes : RequiresAnIdempotencyKey
unfolding serve run_handler ingest prepare submit idempotency_key from_key_error into_response
    error_response parts retry_after
RequiresAnIdempotencyKey_passes = (_, λ m t. refl)

abbrev IsKeyInvalid : Bytes → Type 0
IsKeyInvalid key =
    (message : Text) × IsRejected (post_request (some key) valid) 400 "IDEMPOTENCY_KEY_INVALID"
      message

-- The last key is "clé" in UTF-8.
abbrev pub RejectsInvalidIdempotencyKeys : Type 0
RejectsInvalidIdempotencyKeys =
    All IsKeyInvalid
      ([] ∷ codes "has space" ∷ repeat b'k' 129 ∷ (b'c' ∷ b'l' ∷ 0xc3 ∷ 0xa9 ∷ []) ∷ [])

RejectsInvalidIdempotencyKeys_passes : RejectsInvalidIdempotencyKeys
unfolding repeat serve run_handler ingest prepare submit idempotency_key from_key_error
    into_response error_response parts retry_after parse_key utf8 utf8_char is_ascii_graphic
RejectsInvalidIdempotencyKeys_passes =
    ((_, λ m t. refl), ((_, λ m t. refl), ((_, λ m t. refl), ((_, λ m t. refl), tt))))

abbrev IsInvalidEvent : EventRequest × String → Type 0
IsInvalidEvent (body, message) =
    IsRejected (post_request (some (codes "k")) body) 400 "INVALID_EVENT" (codes message)

abbrev pub ValidatesEventFields : Type 0
ValidatesEventFields = All IsInvalidEvent (
    (record valid { source = [] }, "source must not be empty")
    ∷ (record valid { event_type = codes " " }, "event_type must not be empty")
    ∷ (record valid { source = repeat b's' 101 }, "source must be at most 100 characters")
    ∷ (record valid { event_type = repeat b't' 151 }, "event_type must be at most 150 characters")
    ∷ (record valid { payload = scalar null }, "payload must not be null")
    ∷ [])

ValidatesEventFields_passes : ValidatesEventFields
unfolding repeat serve run_handler ingest prepare submit idempotency_key into_response
    error_response parts retry_after parse_key utf8 utf8_char is_ascii_graphic new_event
    parse_source parse_event_type validate_label validation_message trim trim_start trim_end
    is_whitespace is_control is_null
ValidatesEventFields_passes =
    ((λ m t. refl), ((λ m t. refl), ((λ m t. refl), ((λ m t. refl), ((λ m t. refl), tt)))))

abbrev pub EnforcesTheBodyLimitWithAndWithoutContentLength : Type 0
EnforcesTheBodyLimitWithAndWithoutContentLength =
    (message : Text) × IsRejected (record (post_request (some (codes "k")) valid) { size = 65637 })
      413 "PAYLOAD_TOO_LARGE" message

EnforcesTheBodyLimitWithAndWithoutContentLength_passes :
    EnforcesTheBodyLimitWithAndWithoutContentLength
unfolding serve run_handler ingest prepare submit idempotency_key into_response error_response parts
    retry_after parse_key utf8 utf8_char is_ascii_graphic from_json_rejection
EnforcesTheBodyLimitWithAndWithoutContentLength_passes = (_, λ m t. refl)

abbrev pub RejectsMalformedEventIds : Type 0
RejectsMalformedEventIds =
    (message : Text) × IsRejected (get_status (codes "not-a-uuid")) 400 "INVALID_EVENT_ID" message

RejectsMalformedEventIds_passes : RejectsMalformedEventIds
unfolding serve run_handler look_up get_event find_id parse_event_id into_response error_response
    parts retry_after
RejectsMalformedEventIds_passes = (_, λ m t. refl)
