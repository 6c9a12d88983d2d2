-- ===== src/Store/Invariant/Updates.antt =====
-- An update that rewrites rows in place keeps what only depends on their content.
use pulse_stream.Common.{ℕ, ◌≡◌, refl, Text, All, none, arith, [], ◌∷◌, length}
use pulse_stream.Store.Schema.{Table, find_by_key, find_by_id}
use pulse_stream.Store.Invariant.{HasLabels, HasUniqueIds, HasUniqueKeys, Evolves}

pub find_by_id-update :
    (id : ℕ) (t u : Table)
    → Evolves t u
    → length t ≡ length u
    → find_by_id id t ≡ none
    → find_by_id id u ≡ none
unfolding find_by_id
find_by_id-update id [] [] v e h = refl
find_by_id-update id [] (s ∷ u) v e h = absurd (omega arith)
find_by_id-update id (r ∷ t) [] v e h = absurd v
find_by_id-update id (r ∷ t) (s ∷ u) v e h =
    ground (arith, v.0.same_id, find_by_id-update id t u v.1 (omega arith))

pub find_by_key-update :
    (source key : Text) (t u : Table)
    → Evolves t u
    → length t ≡ length u
    → find_by_key source key t ≡ none
    → find_by_key source key u ≡ none
unfolding find_by_key
find_by_key-update source key [] [] v e h = refl
find_by_key-update source key [] (s ∷ u) v e h = absurd (omega arith)
find_by_key-update source key (r ∷ t) [] v e h = absurd v
find_by_key-update source key (r ∷ t) (s ∷ u) v e h =
    rw (v.0.same_source, v.0.same_key)
      (ground (arith, find_by_key-update source key t u v.1 (omega arith)))

pub HasUniqueIds-update :
    (t u : Table) → Evolves t u → length t ≡ length u → HasUniqueIds t → HasUniqueIds u
HasUniqueIds-update [] [] v e h = tt
HasUniqueIds-update [] (s ∷ u) v e h = absurd (omega arith)
HasUniqueIds-update (r ∷ t) [] v e h = absurd v
HasUniqueIds-update (r ∷ t) (s ∷ u) v e h = (
  rw v.0.same_id (find_by_id-update r.event_id t u v.1 (omega arith) h.0),
  HasUniqueIds-update t u v.1 (omega arith) h.1,
)

pub HasUniqueKeys-update :
    (t u : Table) → Evolves t u → length t ≡ length u → HasUniqueKeys t → HasUniqueKeys u
HasUniqueKeys-update [] [] v e h = tt
HasUniqueKeys-update [] (s ∷ u) v e h = absurd (omega arith)
HasUniqueKeys-update (r ∷ t) [] v e h = absurd v
HasUniqueKeys-update (r ∷ t) (s ∷ u) v e h = (
  rw (v.0.same_source, v.0.same_key)
      (find_by_key-update r.source r.idempotency_key t u v.1 (omega arith) h.0),
  HasUniqueKeys-update t u v.1 (omega arith) h.1,
)

pub HasLabels-update :
    (t u : Table) → Evolves t u → length t ≡ length u → All HasLabels t → All HasLabels u
HasLabels-update [] [] v e h = tt
HasLabels-update [] (s ∷ u) v e h = absurd (omega arith)
HasLabels-update (r ∷ t) [] v e h = absurd v
HasLabels-update (r ∷ t) (s ∷ u) v e h = (
  record {
    source_label = rw v.0.same_source h.0.source_label;
    type_label = rw v.0.same_type h.0.type_label;
  },
  HasLabels-update t u v.1 (omega arith) h.1,
)
