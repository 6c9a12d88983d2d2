-- ===== src/UnitTests/Keys.antt =====
-- The tests of crates/pulsestream-core/src/idempotency.rs, for every writer of scalars. A digest
-- that tells two inputs apart is the input itself.
use pulse_stream.Common.{
  ◌≡◌, ◌≢◌, refl, true, false, text_eq, text_eq_refl, ◌++◌, Text, Bytes, codes, ok, err, [], ◌∷◌,
  All, utf8, utf8_char, is_ascii_graphic,
}
use pulse_stream.Json.{
  Scalar, Value, scalar, null, number, string, array, object, with_entry, no_entry, item, no_item,
}
use pulse_stream.Idempotency.{
  IdempotencyKey, invalid, RequestFingerprint, parse_key, compute, fingerprint_input, frame,
  to_be_bytes, push_bytes, write_canonical, sort_by_key, insert_entry, text_leb, write_entry,
  join_commas,
}
use pulse_stream.UnitTests.Events.{repeat}

abbrev IsAccepted : Text → Type 0
IsAccepted key = (k : IdempotencyKey) × (parse_key key ≡ ok k)

abbrev pub AcceptsVisibleAsciiKeysUpTo128Chars : Type 0
AcceptsVisibleAsciiKeysUpTo128Chars = All IsAccepted (
    codes "a"
    ∷ codes "order-12345"
    ∷ codes "4f6c1e9d-ec77-4565-b736-974f6c1e9de3"
    ∷ codes "ab_C.d~e:f/g+h="
    ∷ repeat b'k' 128
    ∷ [])

AcceptsVisibleAsciiKeysUpTo128Chars_passes : AcceptsVisibleAsciiKeysUpTo128Chars
unfolding repeat parse_key utf8 utf8_char is_ascii_graphic
AcceptsVisibleAsciiKeysUpTo128Chars_passes =
    ((_, refl), ((_, refl), ((_, refl), ((_, refl), ((_, refl), tt)))))

abbrev IsRefused : Text → Type 0
IsRefused key = parse_key key ≡ err invalid

abbrev pub RejectsEmptyLongWhitespaceAndNonAsciiKeys : Type 0
RejectsEmptyLongWhitespaceAndNonAsciiKeys = All IsRefused (
    []
    ∷ codes " "
    ∷ codes "has space"
    ∷ codes "tab\t"
    ∷ codes "new\nline"
    ∷ (b'c' ∷ b'l' ∷ 0xe9 ∷ [])
    ∷ repeat b'k' 129
    ∷ [])

RejectsEmptyLongWhitespaceAndNonAsciiKeys_passes : RejectsEmptyLongWhitespaceAndNonAsciiKeys
unfolding repeat parse_key utf8 utf8_char is_ascii_graphic
RejectsEmptyLongWhitespaceAndNonAsciiKeys_passes =
    (refl, (refl, (refl, (refl, (refl, (refl, (refl, tt)))))))

module _ (to_writer : Scalar → Bytes) (sha256 : Bytes → Bytes) where
  -- `fp`: the labels that the tests give it are valid.
  unfoldable pub fp : Text → Text → Value → RequestFingerprint
  unfolding compute
  fp source event_type payload =
      compute to_writer sha256 (record { text = source }) (record { text = event_type }) payload

abbrev one_two : Value
one_two = array (item (scalar (number (codes "1"))) (item (scalar (number (codes "2"))) no_item))

abbrev two_one : Value
two_one = array (item (scalar (number (codes "2"))) (item (scalar (number (codes "1"))) no_item))

abbrev first_order : Value
first_order = object (
    with_entry (codes "a") (scalar (number (codes "1"))) (
      with_entry (codes "b")
        (object (with_entry (codes "x") one_two (with_entry (codes "y") (scalar null) no_entry)))
        no_entry))

abbrev second_order : Value
second_order = object (
    with_entry (codes "b")
      (object (with_entry (codes "y") (scalar null) (with_entry (codes "x") one_two no_entry)))
      (with_entry (codes "a") (scalar (number (codes "1"))) no_entry))

abbrev pub ObjectKeyOrderDoesNotMatterRecursively : Type 0
ObjectKeyOrderDoesNotMatterRecursively =
    (to_writer : Scalar → Bytes) (sha256 : Bytes → Bytes)
    → fp to_writer sha256 (codes "s") (codes "t") first_order
      ≡ fp to_writer sha256 (codes "s") (codes "t") second_order

ObjectKeyOrderDoesNotMatterRecursively_passes : ObjectKeyOrderDoesNotMatterRecursively
unfolding fp compute fingerprint_input write_canonical sort_by_key insert_entry text_leb write_entry
    join_commas
ObjectKeyOrderDoesNotMatterRecursively_passes to_writer sha256 = refl

-- What serde_json writes for the scalars of the tests: the text of a number, and a quoted string.
unfoldable pub plain_writer : Scalar → Bytes
plain_writer null = codes "null"
plain_writer (Scalar.bool b) = codes "bool"
plain_writer (number t) = t
plain_writer (string t) = b'"' ∷ (t ++ b'"' ∷ [])

differs : (a b : RequestFingerprint) → text_eq a.bytes b.bytes ≡ false → a ≢ b
differs a b e h =
    let same : text_eq a.bytes b.bytes ≡ true = rw h (text_eq_refl b.bytes) in cc (e, same)

abbrev print : Text → Text → Value → RequestFingerprint
print = fp plain_writer (λ b. b)

abbrev just : Value → Value
just value = object (with_entry (codes "a") value no_entry)

abbrev pub ArrayOrderAndValuesMatter : Type 0
ArrayOrderAndValuesMatter =
    (print (codes "s") (codes "t") one_two ≢ print (codes "s") (codes "t") two_one)
    × (print (codes "s") (codes "t") (just (scalar (number (codes "1"))))
        ≢ print (codes "s") (codes "t") (just (scalar (number (codes "2")))))
    × (print (codes "s") (codes "t") (just (scalar (number (codes "1"))))
        ≢ print (codes "s") (codes "t") (just (scalar (number (codes "1.0")))))
    × (print (codes "s") (codes "t") (just (scalar (string (codes "1"))))
        ≢ print (codes "s") (codes "t") (just (scalar (number (codes "1")))))

ArrayOrderAndValuesMatter_passes : ArrayOrderAndValuesMatter
unfolding text_eq plain_writer fp compute fingerprint_input frame to_be_bytes push_bytes
    write_canonical sort_by_key insert_entry text_leb write_entry join_commas utf8 utf8_char
ArrayOrderAndValuesMatter_passes =
    (differs _ _ refl, differs _ _ refl, differs _ _ refl, differs _ _ refl)

abbrev pub SourceAndEventTypeArePartOfTheFingerprint : Type 0
SourceAndEventTypeArePartOfTheFingerprint =
    (print (codes "orders") (codes "order.created") (object no_entry)
      ≢ print (codes "billing") (codes "order.created") (object no_entry))
    × (print (codes "orders") (codes "order.created") (object no_entry)
        ≢ print (codes "orders") (codes "order.updated") (object no_entry))
    × (print (codes "ab") (codes "c") (object no_entry)
        ≢ print (codes "a") (codes "bc") (object no_entry))

SourceAndEventTypeArePartOfTheFingerprint_passes : SourceAndEventTypeArePartOfTheFingerprint
unfolding text_eq plain_writer fp compute fingerprint_input frame to_be_bytes push_bytes
    write_canonical sort_by_key join_commas utf8 utf8_char
SourceAndEventTypeArePartOfTheFingerprint_passes =
    (differs _ _ refl, differs _ _ refl, differs _ _ refl)
