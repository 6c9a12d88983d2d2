-- ===== src/Idempotency/Keys.antt =====
-- Which idempotency keys are accepted (IdempotencyKey::parse).
use pulse_stream.Common.{
  ℕ, ◌≤◌, ◌≡◌, refl, ◌↔◌, true, false, Text, utf8, utf8_char, is_ascii_graphic, all, all-append,
  is_empty, length, arith, [], ◌∷◌, ok, ap,
}
use pulse_stream.Idempotency.{IdempotencyKey, parse_key, max_idempotency_key_chars}

-- A key: 1 to 128 characters, each of them visible ASCII.
pub record IsKey (value : Text) : Type 0 where
  pub not_empty : 1 ≤ length value
  pub short : length value ≤ max_idempotency_key_chars
  pub graphic : all is_ascii_graphic value ≡ true

-- The bytes are all visible ASCII exactly if the characters are.
utf8_char-graphic : (c : ℕ) → all is_ascii_graphic (utf8_char c) ≡ is_ascii_graphic c
unfolding utf8_char is_ascii_graphic
utf8_char-graphic c = ground arith

utf8-graphic : (value : Text) → all is_ascii_graphic (utf8 value) ≡ all is_ascii_graphic value
unfolding utf8
utf8-graphic [] = refl
utf8-graphic (c ∷ s) =
    rw (all-append is_ascii_graphic (utf8_char c) (utf8 s), utf8_char-graphic c, utf8-graphic s)

-- Of visible ASCII the bytes are the characters.
utf8_of_graphic : (value : Text) → all is_ascii_graphic value ≡ true → utf8 value ≡ value
unfolding utf8 utf8_char is_ascii_graphic
utf8_of_graphic [] h = refl
utf8_of_graphic (c ∷ s) h = ground (arith, utf8_of_graphic s)

length-utf8_of_graphic :
    (value : Text) → all is_ascii_graphic value ≡ true → length (utf8 value) ≡ length value
length-utf8_of_graphic value h = ap length (utf8_of_graphic value h)

is_empty-length : (value : Text) → (is_empty value ≡ false) ↔ (1 ≤ length value)
is_empty-length value = ground arith

-- `IdempotencyKey::parse` accepts exactly the keys, and keeps the text.
pub parse_key_iff :
    (value : Text) (key : IdempotencyKey)
    → (parse_key value ≡ ok key) ↔ (IsKey value × (key.text ≡ value))
unfolding parse_key
parse_key_iff value key =
    ground (arith, utf8-graphic value, length-utf8_of_graphic value, is_empty-length value)
