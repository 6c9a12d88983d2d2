-- ===== src/Idempotency/Requests.antt =====
-- Which requests have the same fingerprint (RequestFingerprint::compute).
use pulse_stream.Common.{
  ℕ, ◌≡◌, refl, ap, sym, ◌↔◌, Text, Bytes, utf8, utf8_char, arith, [], ◌∷◌, ◌++◌,
}
use pulse_stream.Json.{Scalar, Value}
use pulse_stream.Event.{EventSource, EventType}
use pulse_stream.Idempotency.{fingerprint_input, write_canonical, compute}
use pulse_stream.Idempotency.Framing.{IsHashable, fingerprint_input-injective}
use pulse_stream.Idempotency.Canonical.Normal.{SameValue}
use pulse_stream.Idempotency.Canonical.Scalars.{IsJson, IsJsonWriter}
use pulse_stream.Idempotency.Canonical.Reading.{write_canonical-eq_iff}

-- A character can be read off the bytes.
utf8_char-injective :
    (c d : ℕ) (a b : Bytes) → utf8_char c ++ a ≡ utf8_char d ++ b → (c ≡ d) × (a ≡ b)
unfolding utf8_char
utf8_char-injective c d a b h = ground arith

utf8_char-ne-nil : (c : ℕ) (a : Bytes) → utf8_char c ++ a ≡ [] → ⊥
unfolding utf8_char
utf8_char-ne-nil c a h = ground arith

pub utf8-injective : (s t : Text) → utf8 s ≡ utf8 t → s ≡ t
unfolding utf8
utf8-injective [] [] h = refl
utf8-injective [] (d ∷ t) h = absurd (utf8_char-ne-nil d (utf8 t) (sym h))
utf8-injective (c ∷ s) [] h = absurd (utf8_char-ne-nil c (utf8 s) h)
utf8-injective (c ∷ s) (d ∷ t) h =
    let (e, l) = utf8_char-injective c d (utf8 s) (utf8 t) h in cc (e, utf8-injective s t l)

module _ (to_writer : Scalar → Bytes) (sha256 : Bytes → Bytes) (source other_source : EventSource)
    (event_type other_type : EventType) (payload other_payload : Value) where
  compute-bytes :
      compute to_writer sha256 source event_type payload
        ≡ compute to_writer sha256 other_source other_type other_payload
      → sha256 (fingerprint_input to_writer source event_type payload)
        ≡ sha256 (fingerprint_input to_writer other_source other_type other_payload)
  unfolding compute
  compute-bytes h = ap (λ f. f.bytes) h

  compute-input :
      fingerprint_input to_writer source event_type payload
        ≡ fingerprint_input to_writer other_source other_type other_payload
      → compute to_writer sha256 source event_type payload
        ≡ compute to_writer sha256 other_source other_type other_payload
  unfolding compute
  compute-input h = ap (λ z. record { bytes = sha256 z }) h

  fingerprint_input-same :
      source ≡ other_source
      → event_type ≡ other_type
      → write_canonical to_writer payload ≡ write_canonical to_writer other_payload
      → fingerprint_input to_writer source event_type payload
        ≡ fingerprint_input to_writer other_source other_type other_payload
  unfolding fingerprint_input
  fingerprint_input-same s t p = rw (s, t, p) refl

  -- Two requests have the same fingerprint exactly if they have the same source, the same event type
  -- and the same payload up to the order of entries; if the parts are shorter than 2^64 bytes, the
  -- writer of scalars is one that JSON scalars can be read back from, and SHA-256 has no collision
  -- between the inputs of these two.
  pub compute-eq_iff :
      IsJsonWriter to_writer
      → IsJson payload
      → IsJson other_payload
      → IsHashable to_writer source event_type payload
      → IsHashable to_writer other_source other_type other_payload
      → (sha256 (fingerprint_input to_writer source event_type payload)
            ≡ sha256 (fingerprint_input to_writer other_source other_type other_payload)
          → fingerprint_input to_writer source event_type payload
            ≡ fingerprint_input to_writer other_source other_type other_payload)
      → (compute to_writer sha256 source event_type payload
          ≡ compute to_writer sha256 other_source other_type other_payload)
        ↔ ((source ≡ other_source) × (event_type ≡ other_type) × SameValue payload other_payload)
  compute-eq_iff w i j a b no_collision = (
    λ h.
        let (s, t, p) =
          fingerprint_input-injective to_writer source other_source event_type other_type payload
            other_payload a b (no_collision (compute-bytes h)) in
        (
          cc (utf8-injective _ _ s),
          cc (utf8-injective _ _ t),
          (write_canonical-eq_iff to_writer payload other_payload w i j).0 p,
        ),
    λ (s, t, p). compute-input (
        fingerprint_input-same s t
          ((write_canonical-eq_iff to_writer payload other_payload w i j).1 p)),
  )
