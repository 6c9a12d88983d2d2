-- ===== src/Idempotency/Framing.antt =====
-- The bytes that RequestFingerprint::compute hashes tell the parts of a request apart.
use pulse_stream.Common.{
  ℕ, zero, suc, ◌/◌, ◌%◌, ◌^◌, ◌<◌, ◌≡◌, refl, sym, ◌∙◌, ap, Bytes, utf8, length, [], ◌∷◌, ◌++◌,
  arith,
}
use pulse_stream.Json.{Scalar, Value}
use pulse_stream.Event.{EventSource, EventType}
use pulse_stream.Idempotency.{
  push_bytes, to_be_bytes, frame, fingerprint_version, fingerprint_input, write_canonical,
}

-- What is left of a number without its last `k` bytes.
abbrev high : ℕ → ℕ → ℕ
high zero n = n
high (suc k) n = high k (n / 256)

push_bytes-injective :
    (k n m : ℕ) (rest more : Bytes)
    → push_bytes k n rest ≡ push_bytes k m more
    → high k n ≡ high k m
    → (n ≡ m) × (rest ≡ more)
unfolding push_bytes
push_bytes-injective zero n m rest more h e = (e, h)
push_bytes-injective (suc k) n m rest more h e =
    let (q, l) = push_bytes-injective k (n / 256) (m / 256) (n % 256 ∷ rest) (m % 256 ∷ more) h e in
    let r : n % 256 ≡ m % 256 = cc l in (omega (arith, q, r), cc l)

high-zero : (n : ℕ) → high 8 (n % 2 ^ 64) ≡ 0
high-zero n = omega arith

to_be_bytes-injective :
    (n m : ℕ) (rest more : Bytes)
    → n < 2 ^ 64
    → m < 2 ^ 64
    → to_be_bytes n ++ rest ≡ to_be_bytes m ++ more
    → (n ≡ m) × (rest ≡ more)
unfolding to_be_bytes push_bytes
to_be_bytes-injective n m rest more a b h =
    let (e, l) =
      push_bytes-injective 8 (n % 2 ^ 64) (m % 2 ^ 64) rest more h
        (high-zero n ∙ sym (high-zero m)) in
    (omega (arith, e, a, b), l)

append-injective :
    (s t rest more : Bytes) → length s ≡ length t → s ++ rest ≡ t ++ more → (s ≡ t) × (rest ≡ more)
append-injective [] [] rest more l h = (refl, h)
append-injective [] (d ∷ t) rest more l h = let none : ⊥ = omega (arith, l) in absurd none
append-injective (c ∷ s) [] rest more l h = let none : ⊥ = omega (arith, l) in absurd none
append-injective (c ∷ s) (d ∷ t) rest more l h =
    let (e, f) = append-injective s t rest more (omega (arith, l)) (cc h) in (cc (e, h), f)

frame-injective :
    (s t rest more : Bytes)
    → length s < 2 ^ 64
    → length t < 2 ^ 64
    → frame s ++ rest ≡ frame t ++ more
    → (s ≡ t) × (rest ≡ more)
unfolding frame to_be_bytes push_bytes
frame-injective s t rest more a b h =
    let (l, e) = to_be_bytes-injective (length s) (length t) (s ++ rest) (t ++ more) a b h in
    append-injective s t rest more l e

-- A request whose lengths are not cut off: each part is shorter than 2^64 bytes.
pub record IsHashable (to_writer : Scalar → Bytes) (source : EventSource) (event_type : EventType)
    (payload : Value) : Type 0 where
  pub source_fits : length (utf8 source.text) < 2 ^ 64
  pub type_fits : length (utf8 event_type.text) < 2 ^ 64
  pub payload_fits : length (write_canonical to_writer payload) < 2 ^ 64

-- Two requests whose parts are shorter than 2^64 bytes, and for which the hasher is fed the same
-- bytes, have the same source, the same type and the same canonical payload, byte for byte: no
-- part can run into the next.
pub fingerprint_input-injective :
    (to_writer : Scalar → Bytes) (source other_source : EventSource)
    (event_type other_type : EventType) (payload other_payload : Value)
    → IsHashable to_writer source event_type payload
    → IsHashable to_writer other_source other_type other_payload
    → fingerprint_input to_writer source event_type payload
      ≡ fingerprint_input to_writer other_source other_type other_payload
    → (utf8 source.text ≡ utf8 other_source.text)
      × (utf8 event_type.text ≡ utf8 other_type.text)
      × (write_canonical to_writer payload ≡ write_canonical to_writer other_payload)
unfolding fingerprint_input
fingerprint_input-injective to_writer source other_source event_type other_type payload
      other_payload a b h =
    let version =
      frame-injective fingerprint_version fingerprint_version _ _ (omega arith) (omega arith) h in
    let (s, rest) = frame-injective _ _ _ _ a.source_fits b.source_fits version.1 in
    let (t, last) = frame-injective _ _ _ _ a.type_fits b.type_fits rest in
    (s, t, (frame-injective _ _ [] [] a.payload_fits b.payload_fits (ap (λ x. x ++ []) last)).0)
