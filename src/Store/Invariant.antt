-- ===== src/Store/Invariant.antt =====
-- The invariants of the `events` table, and how a row may change.
pub mod Updates
pub mod Appends
pub mod Lookups
use pulse_stream.Common.{
  ℕ, ◌≤◌, ◌≡◌, ◌≢◌, refl, ◌∙◌, true, false, Text, text_eq, text_eq_iff, ◌==◌, all, All, In, none,
  some, arith, List, [], ◌∷◌, ◌++◌, inl, inr, ◌⊎◌, length,
}
use pulse_stream.Event.{
  EventStatus, pending, processing, processed, max_source_chars, max_event_type_chars,
}
use pulse_stream.Event.Labels.{IsLabel}
use pulse_stream.Store.Schema.{Row, Table, IsConsistent, has_key, find_by_key, find_by_id}

-- The labels of a stored row are labels that `Event::new` accepts.
pub record HasLabels (r : Row) : Type 0 where
  pub source_label : IsLabel max_source_chars r.source
  pub type_label : IsLabel max_event_type_chars r.event_type

abbrev pub HasUniqueIds : Table → Type 0
HasUniqueIds [] = Unit
HasUniqueIds (r ∷ t) = (find_by_id r.event_id t ≡ none) × HasUniqueIds t

abbrev pub HasUniqueKeys : Table → Type 0
HasUniqueKeys [] = Unit
HasUniqueKeys (r ∷ t) = (find_by_key r.source r.idempotency_key t ≡ none) × HasUniqueKeys t

-- PRIMARY KEY, UNIQUE, the lifecycle CHECK, and labels that can be parsed again.
pub record IsSound (t : Table) : Type 0 where
  pub ids : HasUniqueIds t
  pub keys : HasUniqueKeys t
  pub consistent : All IsConsistent t
  pub labels : All HasLabels t

-- What an operation may do to one row: the content stays, a delivery attempt is never taken back,
-- a row does not become pending again, and a processed row stays as it is.
pub record RowEvolves (r s : Row) : Type 0 where
  pub same_id : s.event_id ≡ r.event_id
  pub same_source : s.source ≡ r.source
  pub same_type : s.event_type ≡ r.event_type
  pub same_payload : s.payload ≡ r.payload
  pub same_key : s.idempotency_key ≡ r.idempotency_key
  pub same_fingerprint : s.request_fingerprint ≡ r.request_fingerprint
  pub same_time : s.accepted_at ≡ r.accepted_at
  pub attempts : r.delivery_attempts ≤ s.delivery_attempts
  pub no_return : (s.status ≢ pending) ⊎ (s ≡ r)
  pub final : (r.status ≢ processed) ⊎ (s ≡ r)

-- Row by row; new rows come at the end, and none is deleted.
abbrev pub Evolves : Table → Table → Type 0
Evolves [] u = Unit
Evolves (r ∷ t) [] = ⊥
Evolves (r ∷ t) (s ∷ u) = RowEvolves r s × Evolves t u

pub RowEvolves-refl : (r : Row) → RowEvolves r r
RowEvolves-refl r = record {
  same_id = refl;
  same_source = refl;
  same_type = refl;
  same_payload = refl;
  same_key = refl;
  same_fingerprint = refl;
  same_time = refl;
  attempts = omega arith;
  no_return = inr refl;
  final = inr refl;
}

pub RowEvolves-trans : {r s q : Row} → RowEvolves r s → RowEvolves s q → RowEvolves r q
RowEvolves-trans {r} {s} {q} a b = record {
  same_id = cc (a.same_id, b.same_id);
  same_source = cc (a.same_source, b.same_source);
  same_type = cc (a.same_type, b.same_type);
  same_payload = cc (a.same_payload, b.same_payload);
  same_key = cc (a.same_key, b.same_key);
  same_fingerprint = cc (a.same_fingerprint, b.same_fingerprint);
  same_time = cc (a.same_time, b.same_time);
  attempts = omega arith;
  no_return = ground (arith, a.no_return, b.no_return);
  final = ground (arith, a.final, b.final);
}

pub Evolves-refl : (t : Table) → Evolves t t
Evolves-refl [] = tt
Evolves-refl (r ∷ t) = (RowEvolves-refl r, Evolves-refl t)

pub Evolves-trans : (t u v : Table) → Evolves t u → Evolves u v → Evolves t v
Evolves-trans [] u v a b = tt
Evolves-trans (r ∷ t) (s ∷ u) (q ∷ v) a b = (RowEvolves-trans a.0 b.0, Evolves-trans t u v a.1 b.1)
Evolves-trans (r ∷ t) (s ∷ u) [] a b = absurd b
Evolves-trans (r ∷ t) [] v a b = absurd a

pub Evolves-append : (t u : Table) → Evolves t (t ++ u)
Evolves-append [] u = tt
Evolves-append (r ∷ t) u = (RowEvolves-refl r, Evolves-append t u)
