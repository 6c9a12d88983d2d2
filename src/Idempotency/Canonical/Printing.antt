-- ===== src/Idempotency/Canonical/Printing.antt =====
-- A printer without lists of parts, and that write_canonical is this printer after putting the
-- entries in order.
use pulse_stream.Common.{
  ◌≡◌, refl, ap, ◌∙◌, sym, Bool, true, false, Text, Bytes, arith, List, [], ◌∷◌, ◌++◌, map,
  append_assoc, append-nil,
}
use pulse_stream.Json.{
  Scalar, string, Value, scalar, array, object, Items, no_item, item, Fields, no_entry, with_entry,
}
use pulse_stream.Idempotency.{
  insert_entry, sort_by_key, join_commas, write_entry, write_canonical, canonical_items,
  canonical_entries,
}
use pulse_stream.Idempotency.Canonical.Normal.{
  insert_field, normalize, normalize_items, normalize_fields,
}

abbrev pub comma_unless : Bool → Bytes → Bytes
comma_unless true rest = rest
comma_unless false rest = b',' ∷ rest

module _ (to_writer : Scalar → Bytes) where
  -- A value, in front of what is printed after it.
  unfoldable mutual
    pub emit : Value → Bytes → Bytes
    emit (scalar s) rest = to_writer s ++ rest
    emit (array xs) rest = b'[' ∷ emit_items true xs rest
    emit (object fs) rest = b'{' ∷ emit_fields true fs rest

    pub emit_items : Bool → Items → Bytes → Bytes
    emit_items first no_item rest = b']' ∷ rest
    emit_items first (item v xs) rest = comma_unless first (emit v (emit_items false xs rest))

    pub emit_fields : Bool → Fields → Bytes → Bytes
    emit_fields first no_entry rest = b'}' ∷ rest
    emit_fields first (with_entry k v fs) rest =
        comma_unless first (to_writer (string k) ++ b':' ∷ emit v (emit_fields false fs rest))

  comma_unless-append :
      (first : Bool) (a r : Bytes) → comma_unless first a ++ r ≡ comma_unless first (a ++ r)
  comma_unless-append true a r = refl
  comma_unless-append false a r = refl

  mutual
    unfolding emit

    emit-append : (v : Value) (a r : Bytes) → emit v a ++ r ≡ emit v (a ++ r)
    emit-append (scalar s) a r = append_assoc (to_writer s) a r
    emit-append (array xs) a r = ap (◌∷◌ b'[') (emit_items-append true xs a r)
    emit-append (object fs) a r = ap (◌∷◌ b'{') (emit_fields-append true fs a r)

    emit_items-append :
        (first : Bool) (xs : Items) (a r : Bytes)
        → emit_items first xs a ++ r ≡ emit_items first xs (a ++ r)
    emit_items-append first no_item a r = refl
    emit_items-append first (item v xs) a r =
        comma_unless-append first _ r
        ∙ ap (comma_unless first) (emit-append v _ r ∙ ap (emit v) (emit_items-append false xs a r))

    emit_fields-append :
        (first : Bool) (fs : Fields) (a r : Bytes)
        → emit_fields first fs a ++ r ≡ emit_fields first fs (a ++ r)
    emit_fields-append first no_entry a r = refl
    emit_fields-append first (with_entry k v fs) a r =
        comma_unless-append first _ r
        ∙ ap (comma_unless first) (
            append_assoc (to_writer (string k)) _ r
            ∙ ap (λ z. to_writer (string k) ++ b':' ∷ z)
                (emit-append v _ r ∙ ap (emit v) (emit_fields-append false fs a r)))

  abbrev item_parts : Items → List Bytes
  item_parts no_item = []
  item_parts (item v xs) = emit v [] ∷ item_parts xs

  abbrev entry_parts : Fields → List (Text × Bytes)
  entry_parts no_entry = []
  entry_parts (with_entry k v fs) = (k, emit v []) ∷ entry_parts fs

  -- The parts after the first one.
  abbrev with_commas : List Bytes → Bytes
  with_commas [] = []
  with_commas (x ∷ xs) = b',' ∷ (x ++ with_commas xs)

  join_commas-cons : (x : Bytes) (xs : List Bytes) → join_commas (x ∷ xs) ≡ x ++ with_commas xs
  unfolding join_commas
  join_commas-cons x [] = sym (append-nil x)
  join_commas-cons x (y ∷ xs) = ap (λ z. x ++ b',' ∷ z) (join_commas-cons y xs)

  emit-split : (v : Value) (a : Bytes) → emit v a ≡ emit v [] ++ a
  emit-split v a = sym (emit-append v [] a)

  with_commas-items :
      (xs : Items) (r : Bytes) → with_commas (item_parts xs) ++ b']' ∷ r ≡ emit_items false xs r
  unfolding emit
  with_commas-items no_item r = refl
  with_commas-items (item v xs) r = ap (◌∷◌ b',') (
      append_assoc (emit v []) _ _
      ∙ ap (λ z. emit v [] ++ z) (with_commas-items xs r)
      ∙ emit-append v [] _)

  join_commas-items :
      (xs : Items) (r : Bytes) → join_commas (item_parts xs) ++ b']' ∷ r ≡ emit_items true xs r
  unfolding emit join_commas
  join_commas-items no_item r = refl
  join_commas-items (item v xs) r =
      ap (λ z. z ++ b']' ∷ r) (join_commas-cons (emit v []) (item_parts xs))
      ∙ append_assoc (emit v []) _ _
      ∙ ap (λ z. emit v [] ++ z) (with_commas-items xs r)
      ∙ emit-append v [] _

  write_entry-append :
      (k : Text) (v : Value) (a : Bytes)
      → write_entry to_writer (k, emit v []) ++ a ≡ to_writer (string k) ++ b':' ∷ emit v a
  unfolding write_entry
  write_entry-append k v a =
      append_assoc (to_writer (string k)) _ a
      ∙ ap (λ z. to_writer (string k) ++ b':' ∷ z) (emit-append v [] a)

  with_commas-fields :
      (fs : Fields) (r : Bytes)
      → with_commas (map (write_entry to_writer) (entry_parts fs)) ++ b'}' ∷ r
        ≡ emit_fields false fs r
  unfolding emit
  with_commas-fields no_entry r = refl
  with_commas-fields (with_entry k v fs) r = ap (◌∷◌ b',') (
      append_assoc (write_entry to_writer (k, emit v [])) _ _
      ∙ ap (λ z. write_entry to_writer (k, emit v []) ++ z) (with_commas-fields fs r)
      ∙ write_entry-append k v _)

  join_commas-fields :
      (fs : Fields) (r : Bytes)
      → join_commas (map (write_entry to_writer) (entry_parts fs)) ++ b'}' ∷ r
        ≡ emit_fields true fs r
  unfolding emit join_commas
  join_commas-fields no_entry r = refl
  join_commas-fields (with_entry k v fs) r =
      ap (λ z. z ++ b'}' ∷ r)
        (join_commas-cons (write_entry to_writer (k, emit v []))
          (map (write_entry to_writer) (entry_parts fs)))
      ∙ append_assoc (write_entry to_writer (k, emit v [])) _ _
      ∙ ap (λ z. write_entry to_writer (k, emit v []) ++ z) (with_commas-fields fs r)
      ∙ write_entry-append k v _

  entry_parts-insert :
      (k : Text) (v : Value) (fs : Fields)
      → insert_entry (k, emit v []) (entry_parts fs) ≡ entry_parts (insert_field k v fs)
  unfolding insert_entry
  entry_parts-insert k v no_entry = refl
  entry_parts-insert k v (with_entry l w fs) = ground (arith, entry_parts-insert k v fs)

  mutual
    unfolding write_canonical normalize emit sort_by_key

    pub write_canonical-emit : (v : Value) → write_canonical to_writer v ≡ emit (normalize v) []
    write_canonical-emit (scalar s) = sym (append-nil (to_writer s))
    write_canonical-emit (array xs) =
        ap (λ z. b'[' ∷ (join_commas z ++ b']' ∷ [])) (canonical_items-parts xs)
        ∙ ap (◌∷◌ b'[') (join_commas-items (normalize_items xs) [])
    write_canonical-emit (object fs) =
        ap (λ z. b'{' ∷ (join_commas (map (write_entry to_writer) z) ++ b'}' ∷ []))
          (canonical_entries-parts fs)
        ∙ ap (◌∷◌ b'{') (join_commas-fields (normalize_fields fs) [])

    canonical_items-parts :
        (xs : Items) → canonical_items to_writer xs ≡ item_parts (normalize_items xs)
    canonical_items-parts no_item = refl
    canonical_items-parts (item v xs) = cc (write_canonical-emit v, canonical_items-parts xs)

    canonical_entries-parts :
        (fs : Fields)
        → sort_by_key (canonical_entries to_writer fs) ≡ entry_parts (normalize_fields fs)
    canonical_entries-parts no_entry = refl
    canonical_entries-parts (with_entry k v fs) =
        ap (λ z. insert_entry (k, z) (sort_by_key (canonical_entries to_writer fs)))
          (write_canonical-emit v)
        ∙ ap (insert_entry (k, emit (normalize v) [])) (canonical_entries-parts fs)
        ∙ entry_parts-insert k (normalize v) (normalize_fields fs)
