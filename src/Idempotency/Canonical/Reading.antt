-- ===== src/Idempotency/Canonical/Reading.antt =====
-- Printed values can be told apart, if the scalars can.
use pulse_stream.Common.{
  ℕ, ◌⊎◌, inl, inr, ◌↔◌, Bool-cases, ◌≡◌, ◌≢◌, refl, ap, ◌∙◌, sym, Bool, true, false, Text, Bytes,
  arith, [], ◌∷◌, ◌++◌,
}
use pulse_stream.Json.{
  Scalar, string, Value, scalar, array, object, Items, no_item, item, Fields, no_entry, with_entry,
}
use pulse_stream.Idempotency.{text_leb, write_canonical}
use pulse_stream.Idempotency.Canonical.Normal.{
  insert_field, normalize, normalize_items, normalize_fields, SameValue, normalize-eq_iff,
}
use pulse_stream.Idempotency.Canonical.Printing.{
  comma_unless, emit, emit_items, emit_fields, write_canonical-emit,
}
use pulse_stream.Idempotency.Canonical.Scalars.{
  IsScalar, IsJson, AreJson, HaveJson, ends_scalar, EndsScalar, is_structural, IsJsonWriter,
}

bytes-differ : (c d : ℕ) (a b : Bytes) → c ≢ d → c ∷ a ≢ d ∷ b
bytes-differ c d a b n h = n (cc h)

module _ (to_writer : Scalar → Bytes) (w : IsJsonWriter to_writer) where
  -- A scalar does not begin with a byte that has a meaning of its own.
  scalar-begins :
      (s : Scalar) (c : ℕ) (a b : Bytes)
      → IsScalar s
      → is_structural c ≡ true
      → to_writer s ++ a ≢ c ∷ b
  scalar-begins s c a b i k h =
      let (d, rest, e, n) = w.opens s i in let same : d ≡ c = cc (e, h) in cc (same, k, n)

  -- No value begins with a byte that ends one.
  emit-begins :
      (v : Value) (c : ℕ) (a b : Bytes)
      → IsJson v
      → ends_scalar c ≡ true
      → emit to_writer v a ≢ c ∷ b
  unfolding emit IsJson ends_scalar is_structural
  emit-begins (scalar s) c a b i k h = scalar-begins s c a b i (rw k refl) h
  emit-begins (array xs) c a b i k h = let same : c ≡ b'[' = cc h in ground arith
  emit-begins (object fs) c a b i k h = let same : c ≡ b'{' = cc h in ground arith

  items-EndsScalar : (xs : Items) (a : Bytes) → EndsScalar (emit_items to_writer false xs a)
  unfolding emit ends_scalar
  items-EndsScalar no_item a = refl
  items-EndsScalar (item v xs) a = refl

  fields-EndsScalar : (fs : Fields) (a : Bytes) → EndsScalar (emit_fields to_writer false fs a)
  unfolding emit ends_scalar
  fields-EndsScalar no_entry a = refl
  fields-EndsScalar (with_entry k v fs) a = refl

  comma_unless-injective :
      (first : Bool) (a b : Bytes) → comma_unless first a ≡ comma_unless first b → a ≡ b
  comma_unless-injective true a b h = h
  comma_unless-injective false a b h = cc h

  -- A closing bracket is not the begin of another item or entry.
  item-closes :
      (first : Bool) (v : Value) (c : ℕ) (a b : Bytes)
      → IsJson v
      → ends_scalar c ≡ true
      → c ≢ b','
      → comma_unless first (emit to_writer v a) ≢ c ∷ b
  item-closes true v c a b i k d h = emit-begins v c a b i k h
  item-closes false v c a b i k d h = d (cc h)

  entry-closes :
      (first : Bool) (k : Text) (a b : Bytes)
      → comma_unless first (to_writer (string k) ++ a) ≢ b'}' ∷ b
  unfolding is_structural ends_scalar
  entry-closes true k a b h = scalar-begins (string k) b'}' a b tt refl h
  entry-closes false k a b h = bytes-differ b',' b'}' _ b (omega arith) h

  scalar-ne-bracket :
      (s : Scalar) (c : ℕ) (a b : Bytes)
      → IsScalar s
      → (c ≡ b'[') ⊎ (c ≡ b'{')
      → to_writer s ++ a ≢ c ∷ b
  unfolding is_structural ends_scalar
  scalar-ne-bracket s c a b i k = scalar-begins s c a b i (ground arith)

  mutual
    unfolding emit IsJson ends_scalar

    emit-injective :
        (u v : Value) (a b : Bytes)
        → IsJson u
        → IsJson v
        → EndsScalar a
        → EndsScalar b
        → emit to_writer u a ≡ emit to_writer v b
        → (u ≡ v) × (a ≡ b)
    emit-injective (scalar s) (scalar t) a b i j x y h =
        let (e, f) = w.splits s t a b i j x y h in (ap scalar e, f)
    emit-injective (scalar s) (array ys) a b i j x y h =
        absurd (scalar-ne-bracket s b'[' a _ i (inl refl) h)
    emit-injective (scalar s) (object gs) a b i j x y h =
        absurd (scalar-ne-bracket s b'{' a _ i (inr refl) h)
    emit-injective (array xs) (scalar t) a b i j x y h =
        absurd (scalar-ne-bracket t b'[' b _ j (inl refl) (sym h))
    emit-injective (array xs) (array ys) a b i j x y h =
        let (e, f) = emit_items-injective true xs ys a b i j (cc h) in (ap array e, f)
    emit-injective (array xs) (object gs) a b i j x y h =
        absurd (bytes-differ b'[' b'{' _ _ (omega arith) h)
    emit-injective (object fs) (scalar t) a b i j x y h =
        absurd (scalar-ne-bracket t b'{' b _ j (inr refl) (sym h))
    emit-injective (object fs) (array ys) a b i j x y h =
        absurd (bytes-differ b'{' b'[' _ _ (omega arith) h)
    emit-injective (object fs) (object gs) a b i j x y h =
        let (e, f) = emit_fields-injective true fs gs a b i j (cc h) in (ap object e, f)

    emit_items-injective :
        (first : Bool) (xs ys : Items) (a b : Bytes)
        → IsJson (array xs)
        → IsJson (array ys)
        → emit_items to_writer first xs a ≡ emit_items to_writer first ys b
        → (xs ≡ ys) × (a ≡ b)
    emit_items-injective first no_item no_item a b i j h = (refl, cc h)
    emit_items-injective first no_item (item v ys) a b i j h =
        absurd (item-closes first v b']' _ a j.0 refl (omega arith) (sym h))
    emit_items-injective first (item u xs) no_item a b i j h =
        absurd (item-closes first u b']' _ b i.0 refl (omega arith) h)
    emit_items-injective first (item u xs) (item v ys) a b i j h =
        let (e, l) =
          emit-injective u v _ _ i.0 j.0 (items-EndsScalar xs a) (items-EndsScalar ys b)
            (comma_unless-injective first _ _ h) in
        let (f, m) = emit_items-injective false xs ys a b i.1 j.1 l in (cc (e, f), m)

    emit_fields-injective :
        (first : Bool) (fs gs : Fields) (a b : Bytes)
        → IsJson (object fs)
        → IsJson (object gs)
        → emit_fields to_writer first fs a ≡ emit_fields to_writer first gs b
        → (fs ≡ gs) × (a ≡ b)
    emit_fields-injective first no_entry no_entry a b i j h = (refl, cc h)
    emit_fields-injective first no_entry (with_entry l v gs) a b i j h =
        absurd (entry-closes first l _ a (sym h))
    emit_fields-injective first (with_entry k u fs) no_entry a b i j h =
        absurd (entry-closes first k _ b h)
    emit_fields-injective first (with_entry k u fs) (with_entry l v gs) a b i j h =
        let (d, m) =
          w.splits (string k) (string l) _ _ tt tt refl refl (comma_unless-injective first _ _ h) in
        let (e, n) =
          emit-injective u v _ _ i.0 j.0 (fields-EndsScalar fs a) (fields-EndsScalar gs b) (cc m) in
        let (f, o) = emit_fields-injective false fs gs a b i.1 j.1 n in (cc (d, e, f), o)

-- Putting the entries in order keeps the numbers.
HaveJson-insert_field :
    (k : Text) (v : Value) (fs : Fields) → IsJson v → HaveJson fs → HaveJson (insert_field k v fs)
unfolding IsJson
HaveJson-insert_field k v no_entry i j = (i, tt)
HaveJson-insert_field k v (with_entry l x fs) i j = elim (Bool-cases (text_leb k l)) [
  | inl e ↦ rw e (i, j)
  | inr e ↦ rw e (j.0, HaveJson-insert_field k v fs i j.1)
]

mutual
  unfolding normalize IsJson

  IsJson-normalize : (v : Value) → IsJson v → IsJson (normalize v)
  IsJson-normalize (scalar s) i = i
  IsJson-normalize (array xs) i = AreJson-normalize_items xs i
  IsJson-normalize (object fs) i = HaveJson-normalize_fields fs i

  AreJson-normalize_items : (xs : Items) → AreJson xs → AreJson (normalize_items xs)
  AreJson-normalize_items no_item i = tt
  AreJson-normalize_items (item v xs) i = (IsJson-normalize v i.0, AreJson-normalize_items xs i.1)

  HaveJson-normalize_fields : (fs : Fields) → HaveJson fs → HaveJson (normalize_fields fs)
  HaveJson-normalize_fields no_entry i = tt
  HaveJson-normalize_fields (with_entry k v fs) i =
      HaveJson-insert_field k (normalize v) (normalize_fields fs) (IsJson-normalize v i.0)
        (HaveJson-normalize_fields fs i.1)

-- Two JSON payloads are written alike exactly if they are the same up to the order in which the
-- entries of their objects stand, at every depth. The writer of scalars is one that JSON scalars
-- can be read back from.
pub write_canonical-eq_iff :
    (to_writer : Scalar → Bytes) (v x : Value)
    → IsJsonWriter to_writer
    → IsJson v
    → IsJson x
    → (write_canonical to_writer v ≡ write_canonical to_writer x) ↔ SameValue v x
write_canonical-eq_iff to_writer v x w i j = (
  λ h.
      let printed = sym (write_canonical-emit to_writer v) ∙ h ∙ write_canonical-emit to_writer x in
      (normalize-eq_iff v x).0
        (emit-injective to_writer w (normalize v) (normalize x) [] [] (IsJson-normalize v i)
          (IsJson-normalize x j) tt tt printed).0,
  λ s.
      write_canonical-emit to_writer v
      ∙ ap (λ z. emit to_writer z []) ((normalize-eq_iff v x).1 s)
      ∙ sym (write_canonical-emit to_writer x),
)
