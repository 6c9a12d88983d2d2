-- ===== src/Idempotency/Canonical/Payloads.antt =====
-- Payloads without the order of their entries, as a quotient, and write_canonical on them.
use mathlib.Core.Quot
use mathlib.Core.Quot.{Quot, Quot-set}
use native.Mathlib.Nat.{ℕ_set}
use pulse_stream.Common.{◌≡◌, ◌↔◌, refl, ap, Bytes}
use pulse_stream.Json.{Scalar, Value}
use pulse_stream.Idempotency.{write_canonical}
use pulse_stream.Idempotency.Canonical.Normal.{SameValue}
use pulse_stream.Idempotency.Canonical.Scalars.{IsJson, IsJsonWriter}
use pulse_stream.Idempotency.Canonical.Reading.{write_canonical-eq_iff}

abbrev pub JsonValue : Type 0
JsonValue = (v : Value) × IsJson v

abbrev pub SamePayload : JsonValue → JsonValue → Type 0
SamePayload v w = SameValue v.0 w.0

-- A JSON value of which the order of entries is forgotten.
abbrev pub Payload : Type 0
Payload = Quot SamePayload

pub Bytes-IsSet : IsSet Bytes
Bytes-IsSet = hlevel ℕ_set

module _ (to_writer : Scalar → Bytes) (w : IsJsonWriter to_writer) where
  pub same-canonical :
      (v x : JsonValue)
      → SamePayload v x
      → write_canonical to_writer v.0 ≡ write_canonical to_writer x.0
  same-canonical v x = (write_canonical-eq_iff to_writer v.0 x.0 w v.1 x.1).1

  -- `write_canonical`, on payloads.
  unfoldable pub canonical_payload : Payload → Bytes
  canonical_payload = Quot.lift Bytes-IsSet (λ v. write_canonical to_writer v.0) same-canonical

  canonical-IsProp : (a b : Payload) → IsProp (canonical_payload a ≡ canonical_payload b → a ≡ b)
  canonical-IsProp a b = hlevel Quot-set

  payloads-eq : (a b : Payload) → canonical_payload a ≡ canonical_payload b → a ≡ b
  unfolding canonical_payload
  payloads-eq =
      Quot.ind (λ a. hlevel (canonical-IsProp a))
        (λ v.
          Quot.ind (λ b. canonical-IsProp (Quot.mk v) b)
            (λ x h. Quot.sound ((write_canonical-eq_iff to_writer v.0 x.0 w v.1 x.1).0 h)))

  -- With a writer of scalars that JSON scalars can be read back from: `write_canonical` is a function
  -- of payloads without the order of their entries, and two of these are written alike exactly if
  -- they are equal.
  pub canonical_payload-eq_iff :
      (v : JsonValue) (a b : Payload)
      → (canonical_payload (Quot.mk v) ≡ write_canonical to_writer v.0)
        × ((canonical_payload a ≡ canonical_payload b) ↔ (a ≡ b))
  unfolding canonical_payload
  canonical_payload-eq_iff v a b = (refl, (payloads-eq a b, λ e. ap canonical_payload e))
