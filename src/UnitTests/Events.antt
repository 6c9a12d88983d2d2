-- ===== src/UnitTests/Events.antt =====
-- The tests of crates/pulsestream-core/src/event.rs and src/lib.rs.
use pulse_stream.Common.{
  ℕ, zero, suc, ◌≡◌, ◌≢◌, refl, Text, codes, none, some, ok, err, [], ◌∷◌, All, trim, trim_start,
  trim_end, is_whitespace, is_control,
}
use pulse_stream.Json.{Value, scalar, null, string, object, with_entry, no_entry, is_null}
use pulse_stream.Event.{
  api, worker, service_name, EventId, EventStatus, pending, processing, processed, as_db_str,
  from_db_str, as_api_str, empty, too_long, control_character, null_payload, Event, EventSource,
  EventType, max_source_chars, max_event_type_chars, validate_label, parse_source, parse_event_type,
  new_event,
}

abbrev pub ServiceNamesAreStable : Type 0
ServiceNamesAreStable =
    (service_name api ≡ "pulsestream-api") × (service_name worker ≡ "pulsestream-worker")

ServiceNamesAreStable_passes : ServiceNamesAreStable
unfolding service_name
ServiceNamesAreStable_passes = (refl, refl)

abbrev order_payload : Value
order_payload = object (with_entry (codes "order_id") (scalar (string (codes "1"))) no_entry)

-- The IDs are those that are drawn; their text form is not the code's.
abbrev pub AcceptsValidEventAndAssignsUniqueIds : Type 0
AcceptsValidEventAndAssignsUniqueIds =
    (first second : EventId) (now : ℕ)
    → first ≢ second
    → (a b : Event) × (new_event first now (codes "orders-api") (codes "order.created")
          order_payload
        ≡ ok a)
      × (new_event second now (codes "orders-api") (codes "order.created") order_payload ≡ ok b)
      × (a.source.text ≡ codes "orders-api")
      × (a.event_type.text ≡ codes "order.created")
      × (a.id ≢ b.id)

AcceptsValidEventAndAssignsUniqueIds_passes : AcceptsValidEventAndAssignsUniqueIds
unfolding new_event parse_source parse_event_type validate_label trim trim_start trim_end
    is_whitespace is_control is_null
AcceptsValidEventAndAssignsUniqueIds_passes first second now different =
    (_, _, refl, refl, refl, refl, different)

abbrev pub RejectsEmptyOrWhitespaceLabels : Type 0
RejectsEmptyOrWhitespaceLabels =
    (fresh : EventId) (now : ℕ)
    → (new_event fresh now [] (codes "t") (object no_entry) ≡ err (empty "source"))
      × (new_event fresh now (codes "s") (codes "   ") (object no_entry) ≡ err (empty "event_type"))

RejectsEmptyOrWhitespaceLabels_passes : RejectsEmptyOrWhitespaceLabels
unfolding new_event parse_source parse_event_type validate_label trim trim_start trim_end
    is_whitespace is_control
RejectsEmptyOrWhitespaceLabels_passes fresh now = (refl, refl)

-- `str::repeat` of a character.
unfoldable pub repeat : ℕ → ℕ → Text
repeat c zero = []
repeat c (suc n) = c ∷ repeat c n

abbrev pub EnforcesLengthLimitsInCharacters : Type 0
EnforcesLengthLimitsInCharacters =
    ((s : EventSource) × (parse_source (repeat 0xe9 max_source_chars) ≡ ok s))
    × (parse_source (repeat b'a' (suc max_source_chars)) ≡ err (too_long "source" max_source_chars))
    × ((t : EventType) × (parse_event_type (repeat b't' max_event_type_chars) ≡ ok t))
    × (parse_event_type (repeat b't' (suc max_event_type_chars))
        ≡ err (too_long "event_type" max_event_type_chars))

EnforcesLengthLimitsInCharacters_passes : EnforcesLengthLimitsInCharacters
unfolding repeat parse_source parse_event_type validate_label trim trim_start trim_end is_whitespace
    is_control
EnforcesLengthLimitsInCharacters_passes = ((_, refl), refl, (_, refl), refl)

abbrev RoundTrips : EventStatus → Type 0
RoundTrips status = from_db_str (as_db_str status) ≡ some status

abbrev pub StatusesRoundTripAndHaveStableApiNames : Type 0
StatusesRoundTripAndHaveStableApiNames =
    All RoundTrips (pending ∷ processing ∷ processed ∷ [])
    × (as_api_str pending ≡ "pending")
    × (as_api_str processing ≡ "processing")
    × (as_api_str processed ≡ "processed")
    × (from_db_str "RETRYING" ≡ none)

StatusesRoundTripAndHaveStableApiNames_passes : StatusesRoundTripAndHaveStableApiNames
unfolding from_db_str as_db_str as_api_str
StatusesRoundTripAndHaveStableApiNames_passes = ((refl, (refl, (refl, tt))), refl, refl, refl, refl)

abbrev pub RejectsControlCharactersAndNullPayload : Type 0
RejectsControlCharactersAndNullPayload =
    (fresh : EventId) (now : ℕ)
    → (parse_event_type (codes "order.created\nforged-log-line")
        ≡ err (control_character "event_type"))
      × (new_event fresh now (codes "s") (codes "t") (scalar null) ≡ err null_payload)
      × ((e : Event) × (new_event fresh now (codes "s") (codes "t") (scalar (string (codes "text")))
            ≡ ok e))

RejectsControlCharactersAndNullPayload_passes : RejectsControlCharactersAndNullPayload
unfolding new_event parse_source parse_event_type validate_label trim trim_start trim_end
    is_whitespace is_control is_null
RejectsControlCharactersAndNullPayload_passes fresh now = (refl, refl, (_, refl))
