-- ===== src/Idempotency/Canonical/Normal.antt =====
-- Payloads up to the order of entries, and a payload in order.
use pulse_stream.Common.{
  ◌≡◌, ◌≢◌, ◌↔◌, refl, ap, ◌∙◌, sym, true, Bool-cases, inl, inr, Text, if◌then◌else◌, arith,
}
use pulse_stream.Json.{
  Scalar, Value, scalar, array, object, Items, no_item, item, Fields, no_entry, with_entry,
}
use pulse_stream.Idempotency.{text_leb}
use pulse_stream.Idempotency.Canonical.Order.{
  text_leb_refl, text_leb_total, text_leb_antisymm, text_leb_trans,
}

-- The same JSON value: entries of an object may change places if their keys differ.
mutual
  pub data SameValue : Value → Value → Type 0 where
    same_scalar : (s : Scalar) → SameValue (scalar s) (scalar s)
    same_array : {xs ys : Items} → SameItems xs ys → SameValue (array xs) (array ys)
    same_object : {fs gs : Fields} → SameFields fs gs → SameValue (object fs) (object gs)

  pub data SameItems : Items → Items → Type 0 where
    same_none : SameItems no_item no_item
    same_item :
        {v w : Value} {xs ys : Items}
        → SameValue v w
        → SameItems xs ys
        → SameItems (item v xs) (item w ys)

  pub data SameFields : Fields → Fields → Type 0 where
    same_end : SameFields no_entry no_entry
    same_entry :
        {v w : Value} {fs gs : Fields} (k : Text)
        → SameValue v w
        → SameFields fs gs
        → SameFields (with_entry k v fs) (with_entry k w gs)
    swapped :
        {fs : Fields} (k l : Text) (v w : Value)
        → k ≢ l
        → SameFields (with_entry k v (with_entry l w fs)) (with_entry l w (with_entry k v fs))
    chained : {fs gs hs : Fields} → SameFields fs gs → SameFields gs hs → SameFields fs hs

abbrev pub insert_field : Text → Value → Fields → Fields
insert_field k v no_entry = with_entry k v no_entry
insert_field k v (with_entry l w fs) =
    if text_leb k l
    then with_entry k v (with_entry l w fs)
    else with_entry l w (insert_field k v fs)

-- All objects in the order of their keys.
unfoldable mutual
  pub normalize : Value → Value
  normalize (scalar s) = scalar s
  normalize (array xs) = array (normalize_items xs)
  normalize (object fs) = object (normalize_fields fs)

  pub normalize_items : Items → Items
  normalize_items no_item = no_item
  normalize_items (item v xs) = item (normalize v) (normalize_items xs)

  pub normalize_fields : Fields → Fields
  normalize_fields no_entry = no_entry
  normalize_fields (with_entry k v fs) = insert_field k (normalize v) (normalize_fields fs)

insert_field_swap :
    (k l : Text) (v w : Value) (fs : Fields)
    → k ≢ l
    → insert_field k v (insert_field l w fs) ≡ insert_field l w (insert_field k v fs)
insert_field_swap k l v w no_entry d = ground (arith, text_leb_total k l, text_leb_antisymm k l)
insert_field_swap k l v w (with_entry m x fs) d = ground (
  arith,
  insert_field_swap k l v w fs d,
  text_leb_total k l,
  text_leb_antisymm k l,
  text_leb_trans k l m,
  text_leb_trans l k m,
)

mutual
  unfolding normalize

  pub normalize-SameValue : {v w : Value} → SameValue v w → normalize v ≡ normalize w
  normalize-SameValue (same_scalar s) = refl
  normalize-SameValue (same_array h) = ap array (normalize_items-SameItems h)
  normalize-SameValue (same_object h) = ap object (normalize_fields-SameFields h)

  normalize_items-SameItems :
      {xs ys : Items} → SameItems xs ys → normalize_items xs ≡ normalize_items ys
  normalize_items-SameItems same_none = refl
  normalize_items-SameItems (same_item h k) =
      cc (normalize-SameValue h, normalize_items-SameItems k)

  normalize_fields-SameFields :
      {fs gs : Fields} → SameFields fs gs → normalize_fields fs ≡ normalize_fields gs
  normalize_fields-SameFields same_end = refl
  normalize_fields-SameFields (same_entry k h g) =
      cc (normalize-SameValue h, normalize_fields-SameFields g)
  normalize_fields-SameFields (swapped {fs} k l v w d) =
      insert_field_swap k l (normalize v) (normalize w) (normalize_fields fs) d
  normalize_fields-SameFields (chained g h) =
      normalize_fields-SameFields g ∙ normalize_fields-SameFields h

mutual
  pub SameValue-refl : (v : Value) → SameValue v v
  SameValue-refl (scalar s) = same_scalar s
  SameValue-refl (array xs) = same_array (SameItems-refl xs)
  SameValue-refl (object fs) = same_object (SameFields-refl fs)

  SameItems-refl : (xs : Items) → SameItems xs xs
  SameItems-refl no_item = same_none
  SameItems-refl (item v xs) = same_item (SameValue-refl v) (SameItems-refl xs)

  SameFields-refl : (fs : Fields) → SameFields fs fs
  SameFields-refl no_entry = same_end
  SameFields-refl (with_entry k v fs) = same_entry k (SameValue-refl v) (SameFields-refl fs)

mutual
  SameValue-symm : {v w : Value} → SameValue v w → SameValue w v
  SameValue-symm (same_scalar s) = same_scalar s
  SameValue-symm (same_array h) = same_array (SameItems-symm h)
  SameValue-symm (same_object h) = same_object (SameFields-symm h)

  SameItems-symm : {xs ys : Items} → SameItems xs ys → SameItems ys xs
  SameItems-symm same_none = same_none
  SameItems-symm (same_item h k) = same_item (SameValue-symm h) (SameItems-symm k)

  SameFields-symm : {fs gs : Fields} → SameFields fs gs → SameFields gs fs
  SameFields-symm same_end = same_end
  SameFields-symm (same_entry k h g) = same_entry k (SameValue-symm h) (SameFields-symm g)
  SameFields-symm (swapped k l v w d) = swapped l k w v (λ e. d (sym e))
  SameFields-symm (chained g h) = chained (SameFields-symm h) (SameFields-symm g)

-- An entry moves past those with smaller keys.
SameFields-insert_field :
    (k : Text) (v : Value) (fs : Fields) → SameFields (with_entry k v fs) (insert_field k v fs)
SameFields-insert_field k v no_entry = SameFields-refl _
SameFields-insert_field k v (with_entry l w fs) = elim (Bool-cases (text_leb k l)) [
  | inl e ↦ rw e (SameFields-refl _)
  | inr e ↦
      let apart : k ≢ l = λ p. let same : text_leb k l ≡ true = rw p (text_leb_refl l) in cc in
      rw e (
        chained (swapped k l v w apart)
          (same_entry l (SameValue-refl w) (SameFields-insert_field k v fs)))
]

mutual
  unfolding normalize

  SameValue-normalize : (v : Value) → SameValue v (normalize v)
  SameValue-normalize (scalar s) = same_scalar s
  SameValue-normalize (array xs) = same_array (SameItems-normalize_items xs)
  SameValue-normalize (object fs) = same_object (SameFields-normalize_fields fs)

  SameItems-normalize_items : (xs : Items) → SameItems xs (normalize_items xs)
  SameItems-normalize_items no_item = same_none
  SameItems-normalize_items (item v xs) =
      same_item (SameValue-normalize v) (SameItems-normalize_items xs)

  SameFields-normalize_fields : (fs : Fields) → SameFields fs (normalize_fields fs)
  SameFields-normalize_fields no_entry = same_end
  SameFields-normalize_fields (with_entry k v fs) =
      chained (same_entry k (SameValue-normalize v) (SameFields-normalize_fields fs))
        (SameFields-insert_field k (normalize v) (normalize_fields fs))

mutual
  SameValue-trans : {v w x : Value} → SameValue v w → SameValue w x → SameValue v x
  SameValue-trans (same_scalar s) k = k
  SameValue-trans (same_array h) (same_array k) = same_array (SameItems-trans h k)
  SameValue-trans (same_object h) (same_object k) = same_object (chained h k)

  SameItems-trans : {xs ys zs : Items} → SameItems xs ys → SameItems ys zs → SameItems xs zs
  SameItems-trans same_none k = k
  SameItems-trans (same_item h g) (same_item k l) =
      same_item (SameValue-trans h k) (SameItems-trans g l)

-- A payload in order stands for all payloads that are the same up to the order.
pub normalize-eq_iff : (v w : Value) → (normalize v ≡ normalize w) ↔ SameValue v w
normalize-eq_iff v w = (
  λ e. SameValue-trans (SameValue-normalize v) (SameValue-symm (rw e (SameValue-normalize w))),
  λ s. normalize-SameValue s,
)
