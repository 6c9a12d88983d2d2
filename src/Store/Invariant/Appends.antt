-- ===== src/Store/Invariant/Appends.antt =====
-- A new row under a fresh identity and a fresh key keeps both unique.
use pulse_stream.Common.{ℕ, ◌≡◌, refl, Text, text_eq_iff, none, some, arith, [], ◌∷◌, ◌++◌}
use pulse_stream.Store.Schema.{Row, Table, find_by_key, find_by_id}
use pulse_stream.Store.Invariant.{HasUniqueIds, HasUniqueKeys}

pub find_by_id-append :
    (id : ℕ) (t : Table) (r : Row)
    → find_by_id id t ≡ none
    → find_by_id id (t ++ r ∷ []) ≡ find_by_id id (r ∷ [])
unfolding find_by_id
find_by_id-append id [] r h = refl
find_by_id-append id (s ∷ t) r h = ground (arith, find_by_id-append id t r)

pub find_by_id-append_hit :
    (id : ℕ) (t : Table) (r s : Row)
    → find_by_id id t ≡ some s
    → find_by_id id (t ++ r ∷ []) ≡ some s
unfolding find_by_id
find_by_id-append_hit id [] r s h = cc
find_by_id-append_hit id (q ∷ t) r s h = ground (arith, find_by_id-append_hit id t r s)

pub find_by_key-append :
    (source key : Text) (t : Table) (r : Row)
    → find_by_key source key t ≡ none
    → find_by_key source key (t ++ r ∷ []) ≡ find_by_key source key (r ∷ [])
unfolding find_by_key
find_by_key-append source key [] r h = refl
find_by_key-append source key (s ∷ t) r h = ground (arith, find_by_key-append source key t r)

pub find_by_key-append_hit :
    (source key : Text) (t : Table) (r s : Row)
    → find_by_key source key t ≡ some s
    → find_by_key source key (t ++ r ∷ []) ≡ some s
unfolding find_by_key
find_by_key-append_hit source key [] r s h = cc
find_by_key-append_hit source key (q ∷ t) r s h =
    ground (arith, find_by_key-append_hit source key t r s)

pub HasUniqueIds-append :
    (t : Table) (r : Row)
    → HasUniqueIds t
    → find_by_id r.event_id t ≡ none
    → HasUniqueIds (t ++ r ∷ [])
unfolding find_by_id
HasUniqueIds-append [] r u h = (refl, tt)
HasUniqueIds-append (s ∷ t) r u h =
    ground (arith, find_by_id-append s.event_id t r u.0, HasUniqueIds-append t r u.1)

pub HasUniqueKeys-append :
    (t : Table) (r : Row)
    → HasUniqueKeys t
    → find_by_key r.source r.idempotency_key t ≡ none
    → HasUniqueKeys (t ++ r ∷ [])
unfolding find_by_key
HasUniqueKeys-append [] r u h = (refl, tt)
HasUniqueKeys-append (s ∷ t) r u h = ground (
  arith,
  find_by_key-append s.source s.idempotency_key t r u.0,
  HasUniqueKeys-append t r u.1,
  text_eq_iff s.source r.source,
  text_eq_iff r.source s.source,
  text_eq_iff s.idempotency_key r.idempotency_key,
  text_eq_iff r.idempotency_key s.idempotency_key,
)
