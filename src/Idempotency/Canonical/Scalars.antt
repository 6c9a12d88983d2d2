-- ===== src/Idempotency/Canonical/Scalars.antt =====
-- JSON scalars in print: what the code relies on serde_json for.
use pulse_stream.Common.{
  ℕ, ◌≡◌, ◌≢◌, Bool, true, false, ◌||◌, ◌&&◌, leb, ◌==◌, all, Bytes, [], ◌∷◌, ◌++◌,
}
use pulse_stream.Json.{
  Scalar, null, bool, number, string, Value, scalar, array, object, Items, no_item, item, Fields,
  no_entry, with_entry,
}

-- The characters of a JSON number.
unfoldable pub is_numeric : ℕ → Bool
is_numeric c =
    (leb 48 c && leb c 57)
    || (c == b'-')
    || (c == b'+')
    || (c == b'.')
    || (c == b'e')
    || (c == b'E')

abbrev pub IsScalar : Scalar → Type 0
IsScalar null = Unit
IsScalar (bool b) = Unit
IsScalar (number t) = (t ≢ []) × (all is_numeric t ≡ true)
IsScalar (string t) = Unit

-- A value whose numbers are JSON numbers.
unfoldable mutual
  pub IsJson : Value → Type 0
  IsJson (scalar s) = IsScalar s
  IsJson (array xs) = AreJson xs
  IsJson (object fs) = HaveJson fs

  pub AreJson : Items → Type 0
  AreJson no_item = Unit
  AreJson (item v xs) = IsJson v × AreJson xs

  pub HaveJson : Fields → Type 0
  HaveJson no_entry = Unit
  HaveJson (with_entry k v fs) = IsJson v × HaveJson fs

-- What follows a scalar in JSON text.
unfoldable pub ends_scalar : ℕ → Bool
ends_scalar c = (c == b',') || (c == b':') || (c == b']') || (c == b'}')

abbrev pub EndsScalar : Bytes → Type 0
EndsScalar [] = Unit
EndsScalar (c ∷ s) = ends_scalar c ≡ true

unfoldable pub is_structural : ℕ → Bool
unfolding ends_scalar
is_structural c = ends_scalar c || (c == b'[') || (c == b'{')

-- What the printing of a JSON scalar without white space guarantees: it does not begin like
-- another part of JSON, and it can be told where it ends and which scalar it is.
pub record IsJsonWriter (to_writer : Scalar → Bytes) : Type 0 where
  pub opens :
      (s : Scalar)
      → IsScalar s
      → (c : ℕ) × (rest : Bytes) × (to_writer s ≡ c ∷ rest) × (is_structural c ≡ false)
  pub splits :
      (s t : Scalar) (a b : Bytes)
      → IsScalar s
      → IsScalar t
      → EndsScalar a
      → EndsScalar b
      → to_writer s ++ a ≡ to_writer t ++ b
      → (s ≡ t) × (a ≡ b)
