-- ===== src/Api/Errors.antt =====
-- crates/pulsestream-api/src/error.rs.
use pulse_stream.Common.{ℕ, ◌==◌, if◌then◌else◌, Text, codes, String, Option, none, some}
use pulse_stream.Idempotency.{IdempotencyKeyError, missing, invalid}

abbrev pub retry_after_secs : ℕ
retry_after_secs = 1

pub data ApiError : Type 0 where
  invalid_event : Text → ApiError
  payload_too_large unsupported_media_type idempotency_key_required : ApiError
  idempotency_key_invalid idempotency_conflict invalid_event_id : ApiError
  event_not_found persistence_unavailable internal : ApiError

-- axum's reasons to reject a body; one of its bytes has the status that axum gives it, and the
-- enumeration is open.
pub data JsonRejection : Type 0 where
  missing_json_content_type json_syntax_error json_data_error : JsonRejection
  bytes_rejection : ℕ → JsonRejection
  other_rejection : JsonRejection

abbrev unreadable : ApiError
unreadable = invalid_event (codes "request body could not be read")

unfoldable pub from_json_rejection : JsonRejection → ApiError
from_json_rejection missing_json_content_type = unsupported_media_type
from_json_rejection (bytes_rejection status) =
    if status == 413 then payload_too_large else unreadable
from_json_rejection json_syntax_error = invalid_event (codes "request body is not valid JSON")
from_json_rejection json_data_error = invalid_event (
    codes
      "request body must be a JSON object with string fields `source` and `event_type`, a `payload`, and no other fields")
from_json_rejection other_rejection = unreadable

-- What `ApiError::parts` returns: the status, the code and the message.
pub record Parts : Type 0 where
  pub status : ℕ
  pub error_code : String
  pub message : Text

abbrev parts_of : ℕ → String → String → Parts
parts_of status error_code message = record {
  status = status;
  error_code = error_code;
  message = codes message;
}

unfoldable pub parts : ApiError → Parts
parts (invalid_event message) = record {
  status = 400;
  error_code = "INVALID_EVENT";
  message = message;
}
parts payload_too_large = parts_of 413 "PAYLOAD_TOO_LARGE" "request body exceeds the 64 KiB limit"
parts unsupported_media_type =
    parts_of 415 "UNSUPPORTED_MEDIA_TYPE" "Content-Type must be application/json"
parts idempotency_key_required =
    parts_of 400 "IDEMPOTENCY_KEY_REQUIRED" "Idempotency-Key header is required"
parts idempotency_key_invalid =
    parts_of 400 "IDEMPOTENCY_KEY_INVALID"
      "Idempotency-Key must be 1-128 characters of visible ASCII (no spaces)"
parts idempotency_conflict =
    parts_of 409 "IDEMPOTENCY_CONFLICT"
      "Idempotency-Key was already used for a different event from this source"
parts invalid_event_id = parts_of 400 "INVALID_EVENT_ID" "event_id must be a UUID"
parts event_not_found = parts_of 404 "EVENT_NOT_FOUND" "event not found"
parts persistence_unavailable =
    parts_of 503 "PERSISTENCE_UNAVAILABLE" "event persistence is temporarily unavailable"
parts internal = parts_of 500 "INTERNAL_ERROR" "internal server error"

-- `From<IdempotencyKeyError>`.
unfoldable pub from_key_error : IdempotencyKeyError → ApiError
from_key_error missing = idempotency_key_required
from_key_error invalid = idempotency_key_invalid

-- `into_response` compares the error with `PersistenceUnavailable`.
unfoldable pub retry_after : ApiError → Option ℕ
retry_after persistence_unavailable = some retry_after_secs
retry_after (invalid_event message) = none
retry_after payload_too_large = none
retry_after unsupported_media_type = none
retry_after idempotency_key_required = none
retry_after idempotency_key_invalid = none
retry_after idempotency_conflict = none
retry_after invalid_event_id = none
retry_after event_not_found = none
retry_after internal = none
