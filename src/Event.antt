-- ===== src/Event.antt =====
-- crates/pulsestream-core/src/event.rs and src/lib.rs: identities, lifecycle states, validated
-- labels and events. A UUID is its 128-bit number; a fresh one (`Uuid::new_v4`) and the current
-- time are arguments, and the `uuid` crate's text form is a parameter.
pub mod Labels
pub mod Status
use Prim.Native.String.{◌++◌ as str_append}
use text.Mathlib.Text.{◌==◌ as str_eq}
use pulse_stream.Common.{
  ℕ, String, Bool, true, false, ◌≡◌, Text, codes, is_control, trim, is_empty, length, any, ltb,
  if◌then◌else◌, Option, none, some, Result, ok, err, ◌>>=◌, ◌>>◌, List, [], ◌++◌, map,
}
use pulse_stream.Json.{Value, is_null}

pub data ServiceName : Type 0 where
  api worker : ServiceName

-- `ServiceName::as_str`, which `Display` writes.
unfoldable pub service_name : ServiceName → String
service_name api = "pulsestream-api"
service_name worker = "pulsestream-worker"

abbrev pub max_source_chars : ℕ
max_source_chars = 100

abbrev pub max_event_type_chars : ℕ
max_event_type_chars = 150

pub data ValidationError : Type 0 where
  empty : String → ValidationError
  too_long : String → ℕ → ValidationError
  control_character : String → ValidationError
  null_payload : ValidationError

-- `Display` of an error, with the decimal printer of the standard library as an argument.
unfoldable pub validation_message : (ℕ → Text) → ValidationError → Text
validation_message decimal (empty field) = codes field ++ codes " must not be empty"
validation_message decimal (too_long field limit) =
    codes field ++ (codes " must be at most " ++ (decimal limit ++ codes " characters"))
validation_message decimal (control_character field) =
    codes field ++ codes " must not contain control characters"
validation_message decimal null_payload = codes "payload must not be null"

pub record EventId : Type 0 where
  pub uuid : ℕ

pub record WorkerId : Type 0 where
  pub uuid : ℕ

-- The text form of the `uuid` crate: `Uuid::try_parse` and `Display`.
pub record UuidText : Type 0 where
  pub try_parse : Text → Option ℕ
  pub display : ℕ → Text

-- `EventId::parse`.
unfoldable pub parse_event_id : UuidText → Text → Option EventId
parse_event_id u value = elim (u.try_parse value) [
  | none ↦ none
  | some n ↦ some (record { uuid = n })
]

pub data EventStatus : Type 0 where
  pending processing processed : EventStatus

unfoldable pub as_db_str : EventStatus → String
as_db_str pending = "PENDING"
as_db_str processing = "PROCESSING"
as_db_str processed = "PROCESSED"

unfoldable pub from_db_str : String → Option EventStatus
from_db_str value =
    if str_eq value "PENDING"
    then some pending
    else if str_eq value "PROCESSING"
    then some processing
    else if str_eq value "PROCESSED"
    then some processed
    else none

unfoldable pub as_api_str : EventStatus → String
as_api_str pending = "pending"
as_api_str processing = "processing"
as_api_str processed = "processed"

unfoldable pub validate_label : String → Text → ℕ → Result (Unit {0}) ValidationError
validate_label field value limit =
    if is_empty (trim value)
    then err (empty field)
    else if ltb limit (length value)
    then err (too_long field limit)
    else if any is_control value
    then err (control_character field)
    else ok tt

pub record EventSource : Type 0 where
  pub text : Text

pub record EventType : Type 0 where
  pub text : Text

unfoldable pub parse_source : Text → Result EventSource ValidationError
parse_source value = do validate_label "source" value max_source_chars; ok (record { text = value })

unfoldable pub parse_event_type : Text → Result EventType ValidationError
parse_event_type value = do
  validate_label "event_type" value max_event_type_chars
  ok (record { text = value })

pub record Event : Type 0 where
  pub id : EventId
  pub source : EventSource
  pub event_type : EventType
  pub payload : Value
  pub accepted_at : ℕ

-- `Event::new`, with the identity and the time that it draws.
unfoldable pub new_event : EventId → ℕ → Text → Text → Value → Result Event ValidationError
new_event fresh now source event_type payload = do
  s ← parse_source source
  t ← parse_event_type event_type
  if is_null payload
      then err null_payload
      else ok
          (record { id = fresh; source = s; event_type = t; payload = payload; accepted_at = now })
