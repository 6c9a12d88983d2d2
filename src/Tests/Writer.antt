-- ===== src/Tests/Writer.antt =====
-- A printing of JSON scalars that can be read back: of a string it shifts each character by 200,
-- so that none is structural.
use pulse_stream.Common.{
  ℕ, ◌+◌, ◌≡◌, ◌≢◌, refl, ap, sym, Bool, true, false, leb, all, Text, Bytes, codes, arith, [], ◌∷◌,
  ◌++◌,
}
use pulse_stream.Json.{Scalar, null, bool, number, string}
use pulse_stream.Idempotency.Canonical.Scalars.{
  is_numeric, IsScalar, ends_scalar, EndsScalar, is_structural, IsJsonWriter,
}

unfoldable pub shift : Text → Bytes
shift [] = []
shift (c ∷ t) = (c + 200) ∷ shift t

unfoldable pub shifting : Scalar → Bytes
unfolding shift
shifting null = codes "null"
shifting (bool true) = codes "true"
shifting (bool false) = codes "false"
shifting (number t) = t
shifting (string t) = b'"' ∷ shift t

abbrev Stops : (ℕ → Bool) → Bytes → Type 0
Stops p [] = Unit
Stops p (c ∷ a) = p c ≡ false

split_once :
    (p : ℕ → Bool) (t u a b : Bytes)
    → all p t ≡ true
    → all p u ≡ true
    → Stops p a
    → Stops p b
    → t ++ a ≡ u ++ b
    → (t ≡ u) × (a ≡ b)
split_once p [] [] a b i j k l h = (refl, h)
split_once p [] (d ∷ u) [] b i j k l h = cc
split_once p [] (d ∷ u) (c ∷ a) b i j k l h = let same : c ≡ d = cc h in ground arith
split_once p (c ∷ t) [] a [] i j k l h = cc
split_once p (c ∷ t) [] a (d ∷ b) i j k l h = let same : c ≡ d = cc h in ground arith
split_once p (c ∷ t) (d ∷ u) a b i j k l h =
    let (e, f) = split_once p t u a b (ground arith) (ground arith) k l (cc h) in (cc (e, h), f)

abbrev is_high : ℕ → Bool
is_high c = leb 200 c

all-shift : (t : Text) → all is_high (shift t) ≡ true
unfolding shift
all-shift [] = refl
all-shift (c ∷ t) = ground (arith, all-shift t)

shift-injective : (t u : Text) → shift t ≡ shift u → t ≡ u
unfolding shift
shift-injective [] [] h = refl
shift-injective [] (d ∷ u) h = cc
shift-injective (c ∷ t) [] h = cc
shift-injective (c ∷ t) (d ∷ u) h =
    let rest = shift-injective t u (cc h) in
    let same : c + 200 ≡ d + 200 = cc h in let head : c ≡ d = omega (arith, same) in cc (head, rest)

Stops-high : (a : Bytes) → EndsScalar a → Stops is_high a
unfolding ends_scalar
Stops-high [] e = tt
Stops-high (c ∷ a) e = ground arith

Stops-numeric : (a : Bytes) → EndsScalar a → Stops is_numeric a
unfolding ends_scalar is_numeric
Stops-numeric [] e = tt
Stops-numeric (c ∷ a) e = ground arith

shifting-opens :
    (s : Scalar)
    → IsScalar s
    → (c : ℕ) × (rest : Bytes) × (shifting s ≡ c ∷ rest) × (is_structural c ≡ false)
unfolding shifting is_structural is_numeric ends_scalar
shifting-opens null i = (b'n', codes "ull", refl, refl)
shifting-opens (bool true) i = (b't', codes "rue", refl, refl)
shifting-opens (bool false) i = (b'f', codes "alse", refl, refl)
shifting-opens (number []) i = absurd (i.0 refl)
shifting-opens (number (c ∷ t)) i = (c, t, refl, ground arith)
shifting-opens (string t) i = (b'"', shift t, refl, refl)

-- A number does not begin like a scalar of another kind.
number-begins :
    (c : ℕ) (t a b : Bytes) → is_numeric c ≡ false → IsScalar (number t) → t ++ a ≢ c ∷ b
number-begins c [] a b n i h = i.0 refl
number-begins c (d ∷ t) a b n i h = let same : c ≡ d = cc h in ground arith

shifting-splits :
    (s t : Scalar) (a b : Bytes)
    → IsScalar s
    → IsScalar t
    → EndsScalar a
    → EndsScalar b
    → shifting s ++ a ≡ shifting t ++ b
    → (s ≡ t) × (a ≡ b)
unfolding shifting is_numeric
shifting-splits null null a b i j k l h = (refl, cc h)
shifting-splits null (bool true) a b i j k l h = ground arith
shifting-splits null (bool false) a b i j k l h = ground arith
shifting-splits null (number u) a b i j k l h =
    absurd (number-begins b'n' u b (codes "ull" ++ a) refl j (sym h))
shifting-splits null (string u) a b i j k l h = ground arith
shifting-splits (bool true) null a b i j k l h = ground arith
shifting-splits (bool false) null a b i j k l h = ground arith
shifting-splits (bool true) (bool true) a b i j k l h = (refl, cc h)
shifting-splits (bool true) (bool false) a b i j k l h = ground arith
shifting-splits (bool false) (bool true) a b i j k l h = ground arith
shifting-splits (bool false) (bool false) a b i j k l h = (refl, cc h)
shifting-splits (bool true) (number u) a b i j k l h =
    absurd (number-begins b't' u b (codes "rue" ++ a) refl j (sym h))
shifting-splits (bool false) (number u) a b i j k l h =
    absurd (number-begins b'f' u b (codes "alse" ++ a) refl j (sym h))
shifting-splits (bool true) (string u) a b i j k l h = ground arith
shifting-splits (bool false) (string u) a b i j k l h = ground arith
shifting-splits (number t) null a b i j k l h =
    absurd (number-begins b'n' t a (codes "ull" ++ b) refl i h)
shifting-splits (number t) (bool true) a b i j k l h =
    absurd (number-begins b't' t a (codes "rue" ++ b) refl i h)
shifting-splits (number t) (bool false) a b i j k l h =
    absurd (number-begins b'f' t a (codes "alse" ++ b) refl i h)
shifting-splits (number t) (number u) a b i j k l h =
    let (e, f) = split_once is_numeric t u a b i.1 j.1 (Stops-numeric a k) (Stops-numeric b l) h in
    (ap number e, f)
shifting-splits (number t) (string u) a b i j k l h =
    absurd (number-begins b'"' t a (shift u ++ b) refl i h)
shifting-splits (string t) null a b i j k l h = ground arith
shifting-splits (string t) (bool true) a b i j k l h = ground arith
shifting-splits (string t) (bool false) a b i j k l h = ground arith
shifting-splits (string t) (number u) a b i j k l h =
    absurd (number-begins b'"' u b (shift t ++ a) refl j (sym h))
shifting-splits (string t) (string u) a b i j k l h =
    let (e, f) =
      split_once is_high (shift t) (shift u) a b (all-shift t) (all-shift u) (Stops-high a k)
        (Stops-high b l) (cc h) in
    (ap string (shift-injective t u e), f)

pub shifting-IsJsonWriter : IsJsonWriter shifting
shifting-IsJsonWriter = record { opens = shifting-opens; splits = shifting-splits }
