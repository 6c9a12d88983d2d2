-- ===== src/Store/Invariant/Lookups.antt =====
-- What a lookup finds is found again, with the same content, after any change.
use pulse_stream.Common.{
  ℕ, ◌≡◌, ◌∙◌, true, false, Text, text_eq_iff, ◌==◌, Bool-cases, inl, inr, some, arith, [], ◌∷◌,
}
use pulse_stream.Store.Schema.{Row, Table, has_key, find_by_key, find_by_id}
use pulse_stream.Store.Invariant.{RowEvolves, Evolves}

pub find_by_key_hit :
    (source key : Text) (t : Table) (r : Row)
    → find_by_key source key t ≡ some r
    → (r.source ≡ source) × (r.idempotency_key ≡ key)
unfolding find_by_key
find_by_key_hit source key [] r h = cc
find_by_key_hit source key (s ∷ t) r h = ground (
  arith,
  text_eq_iff s.source source,
  text_eq_iff s.idempotency_key key,
  find_by_key_hit source key t r,
)

pub find_by_id_hit : (id : ℕ) (t : Table) (r : Row) → find_by_id id t ≡ some r → r.event_id ≡ id
unfolding find_by_id
find_by_id_hit id [] r h = cc
find_by_id_hit id (s ∷ t) r h = ground (arith, find_by_id_hit id t r)

has_key-Evolves :
    (source key : Text) (q s : Row) → RowEvolves q s → has_key source key s ≡ has_key source key q
unfolding has_key
has_key-Evolves source key q s v = rw (v.same_source, v.same_key)

pub find_by_key-Evolves :
    (source key : Text) (t u : Table) (r : Row)
    → Evolves t u
    → find_by_key source key t ≡ some r
    → (s : Row) × (find_by_key source key u ≡ some s) × RowEvolves r s
unfolding find_by_key
find_by_key-Evolves source key [] u r v h = cc
find_by_key-Evolves source key (q ∷ t) [] r v h = absurd v
find_by_key-Evolves source key (q ∷ t) (s ∷ u) r v h = elim (Bool-cases (has_key source key q)) [
  | inl e ↦
      let k : has_key source key s ≡ true = has_key-Evolves source key q s v.0 ∙ e in
      let p : q ≡ r = ground arith in (s, rw k, rw p at v.0)
  | inr e ↦
      let k : has_key source key s ≡ false = has_key-Evolves source key q s v.0 ∙ e in
      let (z, f, w) = find_by_key-Evolves source key t u r v.1 (ground arith) in (z, rw k f, w)
]

pub find_by_id-Evolves :
    (id : ℕ) (t u : Table) (r : Row)
    → Evolves t u
    → find_by_id id t ≡ some r
    → (s : Row) × (find_by_id id u ≡ some s) × RowEvolves r s
unfolding find_by_id
find_by_id-Evolves id [] u r v h = cc
find_by_id-Evolves id (q ∷ t) [] r v h = absurd v
find_by_id-Evolves id (q ∷ t) (s ∷ u) r v h = elim (Bool-cases (q.event_id == id)) [
  | inl e ↦ let p : q ≡ r = ground arith in (s, ground (arith, v.0.same_id), rw p at v.0)
  | inr e ↦
      let (z, f, w) = find_by_id-Evolves id t u r v.1 (ground arith) in
      (z, ground (arith, v.0.same_id), w)
]
