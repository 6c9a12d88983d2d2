-- ===== src/Store/Complete/Keeps.antt =====
-- A completion rewrites a row that is being processed, and keeps the table sound.
use pulse_stream.Common.{
  ℕ, suc, ◌≡◌, ◌⊎◌, refl, ap, inl, inr, true, All, Bool-cases, length, arith, [], ◌∷◌,
}
use pulse_stream.Event.{EventId, WorkerId}
use pulse_stream.Store.Errors.{Reply}
use pulse_stream.Store.Schema.{Row, Table, IsConsistent}
use pulse_stream.Store.Invariant.{IsSound, RowEvolves, RowEvolves-refl, Evolves, Evolves-refl}
use pulse_stream.Store.Invariant.Updates.{
  HasUniqueIds-update, HasUniqueKeys-update, HasLabels-update,
}
use pulse_stream.Store.Complete.{holds_claim, complete_row, complete_rows, complete}

module _ (now : ℕ) (id : EventId) (owner : WorkerId) where
  complete_row-RowEvolves :
      (r : Row) → holds_claim id owner r ≡ true → RowEvolves r (complete_row now r)
  unfolding holds_claim complete_row
  complete_row-RowEvolves r h = record {
    same_id = refl;
    same_source = refl;
    same_type = refl;
    same_payload = refl;
    same_key = refl;
    same_fingerprint = refl;
    same_time = refl;
    attempts = omega arith;
    no_return = inl (λ e. cc);
    final = inl (λ e. ground arith);
  }

  complete_row-IsConsistent :
      (r : Row) → holds_claim id owner r ≡ true → IsConsistent r → IsConsistent (complete_row now r)
  unfolding holds_claim complete_row
  complete_row-IsConsistent r h c = ground arith

  pub complete_rows-Evolves : (t : Table) → Evolves t (complete_rows now id owner t)
  unfolding complete_rows
  complete_rows-Evolves [] = tt
  complete_rows-Evolves (r ∷ t) = elim (Bool-cases (holds_claim id owner r)) [
    | inl e ↦ rw e (complete_row-RowEvolves r e, complete_rows-Evolves t)
    | inr e ↦ rw e (RowEvolves-refl r, complete_rows-Evolves t)
  ]

  pub complete_rows-IsConsistent :
      (t : Table) → All IsConsistent t → All IsConsistent (complete_rows now id owner t)
  unfolding complete_rows
  complete_rows-IsConsistent [] c = tt
  complete_rows-IsConsistent (r ∷ t) c = elim (Bool-cases (holds_claim id owner r)) [
    | inl e ↦ rw e (complete_row-IsConsistent r e c.0, complete_rows-IsConsistent t c.1)
    | inr e ↦ rw e (c.0, complete_rows-IsConsistent t c.1)
  ]

  length-complete_rows : (t : Table) → length t ≡ length (complete_rows now id owner t)
  unfolding complete_rows
  length-complete_rows [] = refl
  length-complete_rows (r ∷ t) = ap suc (length-complete_rows t)

  complete_rows-IsSound : (t : Table) → IsSound t → IsSound (complete_rows now id owner t)
  complete_rows-IsSound t s =
      let v = complete_rows-Evolves t in
      let e = length-complete_rows t in
      record {
        ids = HasUniqueIds-update t _ v e s.ids;
        keys = HasUniqueKeys-update t _ v e s.keys;
        consistent = complete_rows-IsConsistent t s.consistent;
        labels = HasLabels-update t _ v e s.labels;
      }

  pub complete_cases :
      (reply : Reply) (t : Table)
      → ((complete reply now id owner t).1 ≡ t)
        ⊎ ((complete reply now id owner t).1 ≡ complete_rows now id owner t)
  unfolding complete
  complete_cases reply t = ground arith

module _ (reply : Reply) (now : ℕ) (id : EventId) (owner : WorkerId) (t : Table) where
  pub complete-Evolves : Evolves t (complete reply now id owner t).1
  complete-Evolves = elim (complete_cases now id owner reply t) [
    | inl e ↦ rw e (Evolves-refl t)
    | inr e ↦ rw e (complete_rows-Evolves now id owner t)
  ]

  pub complete-IsSound : IsSound t → IsSound (complete reply now id owner t).1
  complete-IsSound s = elim (complete_cases now id owner reply t) [
    | inl e ↦ rw e s
    | inr e ↦ rw e (complete_rows-IsSound now id owner t s)
  ]
