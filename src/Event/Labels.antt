-- ===== src/Event/Labels.antt =====
-- Which labels and events are accepted (validate_label, Event::new).
use pulse_stream.Common.{
  ℕ, String, ◌≤◌, true, false, not, ◌≡◌, ◌↔◌, Text, is_whitespace, is_control, trim-is_empty,
  length, any, ok, arith,
}
use pulse_stream.Json.{Value, is_null}
use pulse_stream.Event.{
  Event, EventId, validate_label, parse_source, parse_event_type, new_event, max_source_chars,
  max_event_type_chars,
}

-- A label: some character that is no white space, at most so many characters, none a control.
pub record IsLabel (limit : ℕ) (value : Text) : Type 0 where
  pub visible : any (λ c. not (is_whitespace c)) value ≡ true
  pub short : length value ≤ limit
  pub printable : any is_control value ≡ false

-- `validate_label` accepts exactly the labels.
pub validate_label_iff :
    (field : String) (value : Text) (limit : ℕ)
    → (validate_label field value limit ≡ ok tt) ↔ IsLabel limit value
unfolding validate_label
validate_label_iff field value limit = ground (arith, trim-is_empty value)

pub record IsValidEvent (e : Event) : Type 0 where
  pub source_label : IsLabel max_source_chars e.source.text
  pub type_label : IsLabel max_event_type_chars e.event_type.text
  pub not_null : is_null e.payload ≡ false

-- `Event::new` succeeds exactly on two labels and a payload that is not null, and then holds what
-- it was given.
pub new_event_iff :
    (fresh : EventId) (now : ℕ) (source event_type : Text) (payload : Value) (e : Event)
    → (new_event fresh now source event_type payload ≡ ok e) ↔ (
        IsValidEvent e
        × (e.id ≡ fresh)
        × (e.source.text ≡ source)
        × (e.event_type.text ≡ event_type)
        × (e.payload ≡ payload)
        × (e.accepted_at ≡ now))
unfolding new_event parse_source parse_event_type
new_event_iff fresh now source event_type payload e = ground (
  arith,
  validate_label_iff "source" source max_source_chars,
  validate_label_iff "event_type" event_type max_event_type_chars,
)
