-- ===== src/Idempotency.antt =====
-- crates/pulsestream-core/src/idempotency.rs: idempotency keys, the canonical encoding of a payload
-- and the fingerprint of a request. serde_json's writer of a scalar and SHA-256 are parameters.
pub mod Keys
pub mod Framing
pub mod Canonical
pub mod Requests
use pulse_stream.Common.{
  ℕ, zero, suc, ◌/◌, ◌%◌, ◌^◌, Bool, true, false, ◌&&◌, not, Text, Bytes, codes, utf8,
  is_ascii_graphic, is_empty, all, length, ltb, leb, ◌==◌, if◌then◌else◌, Result, ok, err, List, [],
  ◌∷◌, ◌++◌, map,
}
use pulse_stream.Json.{
  Scalar, string, Value, scalar, array, object, Items, no_item, item, Fields, no_entry, with_entry,
}
use pulse_stream.Event.{EventSource, EventType}

abbrev pub max_idempotency_key_chars : ℕ
max_idempotency_key_chars = 128

pub data IdempotencyKeyError : Type 0 where
  missing invalid : IdempotencyKeyError

pub record IdempotencyKey : Type 0 where
  pub text : Text

-- `IdempotencyKey::parse`: `len` and `bytes` are those of the UTF-8 text.
unfoldable pub parse_key : Text → Result IdempotencyKey IdempotencyKeyError
parse_key value =
    if not (is_empty value)
      && leb (length (utf8 value)) max_idempotency_key_chars
      && all is_ascii_graphic (utf8 value)
    then ok (record { text = value })
    else err invalid

abbrev pub fingerprint_version : Bytes
fingerprint_version = codes "pulsestream.request-fingerprint.v1"

-- The last `k` bytes of a number, in front of `rest`, the most significant first.
unfoldable pub push_bytes : ℕ → ℕ → Bytes → Bytes
push_bytes zero n rest = rest
push_bytes (suc k) n rest = push_bytes k (n / 256) (n % 256 ∷ rest)

-- `(n as u64).to_be_bytes()`.
unfoldable pub to_be_bytes : ℕ → Bytes
unfolding push_bytes
to_be_bytes n = push_bytes 8 (n % 2 ^ 64) []

-- Rust's order of strings, which is that of their code points.
unfoldable pub text_leb : Text → Text → Bool
text_leb [] t = true
text_leb (c ∷ s) [] = false
text_leb (c ∷ s) (d ∷ t) = let rest = text_leb s t in if c == d then rest else ltb c d

module _ {A : Type 0} where
  unfoldable pub insert_entry : Text × A → List (Text × A) → List (Text × A)
  insert_entry e [] = e ∷ []
  insert_entry e (x ∷ xs) = if text_leb e.0 x.0 then e ∷ x ∷ xs else x ∷ insert_entry e xs

  -- `sort_unstable_by_key`: the keys of an object are distinct, so there is one result.
  unfoldable pub sort_by_key : List (Text × A) → List (Text × A)
  unfolding insert_entry
  sort_by_key [] = []
  sort_by_key (x ∷ xs) = insert_entry x (sort_by_key xs)

-- The loops of `write_canonical`: a comma before every part but the first.
unfoldable pub join_commas : List Bytes → Bytes
join_commas [] = []
join_commas (x ∷ []) = x
join_commas (x ∷ y ∷ xs) = x ++ b',' ∷ join_commas (y ∷ xs)

module _ (to_writer : Scalar → Bytes) where
  unfoldable pub write_entry : Text × Bytes → Bytes
  write_entry (key, value) = to_writer (string key) ++ b':' ∷ value

  unfoldable mutual
    unfolding write_entry sort_by_key join_commas

    pub write_canonical : Value → Bytes
    write_canonical (object fs) =
        b'{' ∷ (join_commas (map write_entry (sort_by_key (canonical_entries fs))) ++ b'}' ∷ [])
    write_canonical (array xs) = b'[' ∷ (join_commas (canonical_items xs) ++ b']' ∷ [])
    write_canonical (scalar s) = to_writer s

    pub canonical_items : Items → List Bytes
    canonical_items no_item = []
    canonical_items (item x xs) = write_canonical x ∷ canonical_items xs

    pub canonical_entries : Fields → List (Text × Bytes)
    canonical_entries no_entry = []
    canonical_entries (with_entry k v fs) = (k, write_canonical v) ∷ canonical_entries fs

-- One `hasher.update` of a length and one of the part.
unfoldable pub frame : Bytes → Bytes
unfolding to_be_bytes
frame part = to_be_bytes (length part) ++ part

pub record RequestFingerprint : Type 0 where
  pub bytes : Bytes

module _ (to_writer : Scalar → Bytes) where
  -- All that the hasher is fed.
  unfoldable pub fingerprint_input : EventSource → EventType → Value → Bytes
  unfolding frame
  fingerprint_input source event_type payload =
      frame fingerprint_version
      ++ (frame (utf8 source.text)
          ++ (frame (utf8 event_type.text) ++ frame (write_canonical to_writer payload)))

  -- `RequestFingerprint::compute`.
  unfoldable pub compute :
      (sha256 : Bytes → Bytes) → EventSource → EventType → Value → RequestFingerprint
  unfolding fingerprint_input
  compute sha256 source event_type payload = record {
    bytes = sha256 (fingerprint_input source event_type payload);
  }
