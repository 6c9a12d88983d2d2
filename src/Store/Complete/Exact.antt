-- ===== src/Store/Complete/Exact.antt =====
-- What `complete` answers and does, by the row that it is about.
use pulse_stream.Common.{
  ℕ, ◌≡◌, ◌↔◌, ◌⊎◌, Option-cases, refl, ◌∙◌, ap, true, false, Bool-cases, inl, inr, ◌==◌, ==_iff,
  some, none, ok, arith, [], ◌∷◌, if◌then◌else◌,
}
use pulse_stream.Event.{EventId, WorkerId, processing, processed}
use pulse_stream.Store.Errors.{acknowledged}
use pulse_stream.Store.Schema.{Row, Table, find_by_id}
use pulse_stream.Store.Invariant.{IsSound, HasUniqueIds}
use pulse_stream.Store.Invariant.Lookups.{find_by_id_hit}
use pulse_stream.Store.Complete.{holds_claim, complete_row, complete_rows, rows_affected, complete}

-- The worker's claim on an event: its row is being processed and names the worker.
abbrev pub IsHeldBy : WorkerId → Row → Type 0
IsHeldBy owner r = (r.status ≡ processing) × (r.processing_owner ≡ some owner.uuid)

not-holds :
    (id : EventId) (owner : WorkerId) (q : Row)
    → (q.event_id == id.uuid) ≡ false
    → holds_claim id owner q ≡ false
unfolding holds_claim
not-holds id owner q e = rw e

module _ (now : ℕ) (id : EventId) (owner : WorkerId) where
  pub find_by_id-complete_rows :
      (other : ℕ) (t : Table) (r : Row)
      → find_by_id other t ≡ some r
      → find_by_id other (complete_rows now id owner t)
        ≡ some (if holds_claim id owner r then complete_row now r else r)
  unfolding find_by_id complete_rows complete_row
  find_by_id-complete_rows other [] r h = cc
  find_by_id-complete_rows other (s ∷ t) r h = ground (arith, find_by_id-complete_rows other t r)

  -- A table with no row of the event.
  absent_rows :
      (t : Table)
      → find_by_id id.uuid t ≡ none
      → (rows_affected id owner t ≡ 0) × (complete_rows now id owner t ≡ t)
  unfolding find_by_id complete_rows rows_affected holds_claim
  absent_rows [] h = (refl, refl)
  absent_rows (s ∷ t) h = ground (arith, absent_rows t)

  present_head :
      (s : Row) (t : Table) (r : Row)
      → s ≡ r
      → (s.event_id == id.uuid) ≡ true
      → rows_affected id owner t ≡ 0
      → complete_rows now id owner t ≡ t
      → (rows_affected id owner (s ∷ t) ≡ (if holds_claim id owner r then 1 else 0))
        × (holds_claim id owner r ≡ false → complete_rows now id owner (s ∷ t) ≡ s ∷ t)
  unfolding complete_rows rows_affected
  present_head s t r p e n m =
      rw (← p, n, m)
        (elim (Bool-cases (holds_claim id owner s)) [
          | inl k ↦ rw k (refl, λ b. cc)
          | inr k ↦ rw k (refl, λ b. refl)
        ])

  present_rows :
      (t : Table) (r : Row)
      → HasUniqueIds t
      → find_by_id id.uuid t ≡ some r
      → (rows_affected id owner t ≡ (if holds_claim id owner r then 1 else 0))
        × (holds_claim id owner r ≡ false → complete_rows now id owner t ≡ t)
  unfolding find_by_id complete_rows rows_affected
  present_rows [] r u h = cc
  present_rows (s ∷ t) r u h = elim (Bool-cases (s.event_id == id.uuid)) [
    | inl e ↦
        let p : s ≡ r = ground arith in
        let q : s.event_id ≡ id.uuid = (==_iff _ _).0 e in
        let rest = absent_rows t (rw q at u.0) in present_head s t r p e rest.0 rest.1
    | inr e ↦
        let k : holds_claim id owner s ≡ false = not-holds id owner s e in
        let rest = present_rows t r u.1 (ground arith) in
        (rw k rest.0, λ n. rw k (ap (◌∷◌ s) (rest.1 n)))
  ]

  complete_absent :
      (t : Table)
      → find_by_id id.uuid t ≡ none
      → complete acknowledged now id owner t ≡ (ok false, t)
  unfolding complete
  complete_absent t h = let a = absent_rows t h in rw (a.0, a.1)

  complete_stale :
      (t : Table) (r : Row)
      → HasUniqueIds t
      → find_by_id id.uuid t ≡ some r
      → holds_claim id owner r ≡ false
      → complete acknowledged now id owner t ≡ (ok false, t)
  unfolding complete
  complete_stale t r u h k =
      let a = present_rows t r u h in
      let n : rows_affected id owner t ≡ 0 = a.0 ∙ rw k in rw (n, a.1 k)

  complete_held :
      (t : Table) (r : Row)
      → HasUniqueIds t
      → find_by_id id.uuid t ≡ some r
      → holds_claim id owner r ≡ true
      → (complete acknowledged now id owner t).0 ≡ ok true
  unfolding complete
  complete_held t r u h k =
      let a = present_rows t r u h in let n : rows_affected id owner t ≡ 1 = a.0 ∙ rw k in rw n

  holds_claim_iff :
      (r : Row) → r.event_id ≡ id.uuid → (holds_claim id owner r ≡ true) ↔ IsHeldBy owner r
  unfolding holds_claim
  holds_claim_iff r h = ground arith

  completed_row :
      (t : Table) (r : Row)
      → find_by_id id.uuid t ≡ some r
      → holds_claim id owner r ≡ true
      → find_by_id id.uuid (complete acknowledged now id owner t).1 ≡ some (complete_row now r)
  unfolding complete
  completed_row t r e k = find_by_id-complete_rows id.uuid t r e ∙ rw k

  not_held :
      (r : Row)
      → holds_claim id owner r ≡ false
      → (IsHeldBy owner r → holds_claim id owner r ≡ true)
      → (q : Row) → q ≡ r
      → IsHeldBy owner q
      → ⊥
  not_held r k back q e h = let p : holds_claim id owner r ≡ true = back (rw e at h) in cc

  -- On a sound table an acknowledged completion has one of two results. Either the event's row is
  -- being processed by the caller; then the answer is true, and the row becomes processed, with no
  -- owner and no lease. Or there is no such row, the answer is false and nothing changes.
  pub complete_exact :
      (t : Table)
      → IsSound t
      → ((r : Row) × (find_by_id id.uuid t ≡ some r)
          × IsHeldBy owner r
          × ((complete acknowledged now id owner t).0 ≡ ok true)
          × (find_by_id id.uuid (complete acknowledged now id owner t).1
              ≡ some (record r {
                status = processed;
                processed_at = some now;
                processing_owner = none;
                lease_expires_at = none;
              })))
        ⊎ (¬ ((r : Row) × (find_by_id id.uuid t ≡ some r) × IsHeldBy owner r)
            × (complete acknowledged now id owner t ≡ (ok false, t)))
  unfolding complete_row
  complete_exact t s = elim (Option-cases (find_by_id id.uuid t)) [
    | inl e ↦ inr (λ m. cc (e, m.1), complete_absent t e)
    | inr (r, e) ↦
        let held = holds_claim_iff r (find_by_id_hit id.uuid t r e) in
        elim (Bool-cases (holds_claim id owner r)) [
          | inl k ↦ inl (r, e, held.0 k, complete_held t r s.ids e k, completed_row t r e k)
          | inr k ↦
              inr (λ m. not_held r k held.1 m.0 (cc (e, m.1)) m.2, complete_stale t r s.ids e k)
        ]
  ]
