-- ===== src/TestDatabase/Leases.antt =====
-- A lease that a test lets end, and what the counts of a test add up to.
use pulse_stream.Common.{
  ℕ, ◌-◌, ◌+◌, ◌≤◌, ◌≡◌, refl, ◌∙◌, inl, inr, true, false, ◌==◌, ==_iff, Bool-cases, length,
  if◌then◌else◌, none, some, arith, [], ◌∷◌,
}
use pulse_stream.Event.{EventId, processing, as_db_str}
use pulse_stream.Store.Schema.{Row, Table, find_by_id}
use pulse_stream.Store.Invariant.{IsSound, HasUniqueIds, RowEvolves, RowEvolves-refl, Evolves}
use pulse_stream.Store.Claim.{has_expired, is_claimable}
use pulse_stream.Store.Complete.{is_processing}
use pulse_stream.TestDatabase.Rows.{
  is_expiring, expire_row, expire_rows, rows_expired, expire_lease, lease_active, lifecycle,
  count_status, is_pending, is_processed, status_counts,
}

module _ (now : ℕ) (id : EventId) where
  expire_row-RowEvolves : (r : Row) → is_expiring id r ≡ true → RowEvolves r (expire_row now r)
  unfolding is_expiring expire_row
  expire_row-RowEvolves r h = record {
    same_id = refl;
    same_source = refl;
    same_type = refl;
    same_payload = refl;
    same_key = refl;
    same_fingerprint = refl;
    same_time = refl;
    attempts = omega arith;
    no_return = inl (λ e. ground arith);
    final = inl (λ e. ground arith);
  }

  expire_rows-Evolves : (t : Table) → Evolves t (expire_rows now id t)
  unfolding expire_rows
  expire_rows-Evolves [] = tt
  expire_rows-Evolves (r ∷ t) = elim (Bool-cases (is_expiring id r)) [
    | inl e ↦ rw e (expire_row-RowEvolves r e, expire_rows-Evolves t)
    | inr e ↦ rw e (RowEvolves-refl r, expire_rows-Evolves t)
  ]

  find_by_id-expire_rows :
      (t : Table) (r : Row)
      → find_by_id id.uuid t ≡ some r
      → find_by_id id.uuid (expire_rows now id t)
        ≡ some (if is_expiring id r then expire_row now r else r)
  unfolding find_by_id expire_rows expire_row
  find_by_id-expire_rows [] r h = cc
  find_by_id-expire_rows (s ∷ t) r h = ground (arith, find_by_id-expire_rows t r)

  rows_expired-none : (t : Table) → find_by_id id.uuid t ≡ none → rows_expired id t ≡ 0
  unfolding find_by_id rows_expired is_expiring
  rows_expired-none [] h = refl
  rows_expired-none (s ∷ t) h = ground (arith, rows_expired-none t)

  not_expiring : (s : Row) → (s.event_id == id.uuid) ≡ false → is_expiring id s ≡ false
  unfolding is_expiring
  not_expiring s e = rw e refl

  -- The row that the assertion has found.
  expiring_row :
      (t : Table)
      → HasUniqueIds t
      → rows_expired id t ≡ 1
      → (r : Row) × (find_by_id id.uuid t ≡ some r) × (is_expiring id r ≡ true)
  unfolding find_by_id rows_expired
  expiring_row [] u h = cc
  expiring_row (s ∷ t) u h = elim (Bool-cases (s.event_id == id.uuid)) [
    | inl e ↦
        let q : s.event_id ≡ id.uuid = (==_iff _ _).0 e in
        let rest : rows_expired id t ≡ 0 = rows_expired-none t (rw q at u.0) in
        (s, rw e refl, ground arith)
    | inr e ↦
        let n : is_expiring id s ≡ false = not_expiring s e in
        let (r, f, x) = expiring_row t u.1 (ground arith) in (r, rw e f, x)
  ]

  expired-claimable :
      (later : ℕ) (r : Row)
      → now ≤ later
      → is_expiring id r ≡ true
      → is_claimable later (expire_row now r) ≡ true
  unfolding is_expiring expire_row is_claimable has_expired
  expired-claimable later r l h = ground arith

expire_lease-some :
    (now : ℕ) (id : EventId) (t u : Table)
    → expire_lease now id t ≡ some u
    → (rows_expired id t ≡ 1) × (expire_rows now id t ≡ u)
unfolding expire_lease
expire_lease-some now id t u h = ground arith

not_active : (now later : ℕ) → now ≤ later → lease_active later (some (now - 1000000)) ≡ some false
unfolding lease_active
not_active now later l = ground arith

lifecycle-expired :
    (now : ℕ) (id : EventId) (later : ℕ) (u : Table) (r : Row)
    → now ≤ later
    → is_expiring id r ≡ true
    → find_by_id id.uuid u ≡ some (expire_row now r)
    → lifecycle later id u
      ≡ some (record {
        status = "PROCESSING";
        owner = r.processing_owner;
        attempts = r.delivery_attempts;
        lease_active = some false;
      })
unfolding lifecycle expire_row is_expiring as_db_str
lifecycle-expired now id later u r l x g =
    let p : r.status ≡ processing = ground arith in
    rw (lifecycle, g, p, not_active now later l) refl

-- A test's call of `expire_lease` that does not panic, on a sound table: the event is still being
-- processed, by the same owner and after as many attempts, its lease is not active, any claim from
-- then on may take it, and the table has changed as the store's own calls may change it.
pub expire_lease_frees :
    (now : ℕ) (id : EventId) (t u : Table) (later : ℕ)
    → IsSound t
    → expire_lease now id t ≡ some u
    → now ≤ later
    → (r s : Row) × (find_by_id id.uuid t ≡ some r)
      × (find_by_id id.uuid u ≡ some s)
      × (lifecycle later id u
          ≡ some (record {
            status = "PROCESSING";
            owner = r.processing_owner;
            attempts = r.delivery_attempts;
            lease_active = some false;
          }))
      × (is_claimable later s ≡ true)
      × Evolves t u
unfolding expire_lease
expire_lease_frees now id t u later s h l =
    let (one, same) = expire_lease-some now id t u h in
    let (r, f, x) = expiring_row now id t s.ids one in
    let g : find_by_id id.uuid u ≡ some (expire_row now r) =
      rw (← same) (find_by_id-expire_rows now id t r f ∙ rw x refl) in
    (
      r,
      expire_row now r,
      f,
      g,
      lifecycle-expired now id later u r l x g,
      expired-claimable now id later r l x,
      rw (← same) (expire_rows-Evolves now id t),
    )

-- Each row is counted in one of the three states.
pub status_counts_total :
    (t : Table) → (status_counts t).0 + (status_counts t).1 + (status_counts t).2 ≡ length t
unfolding status_counts count_status is_pending is_processing is_processed
status_counts_total [] = refl
status_counts_total (r ∷ t) = ground (arith, status_counts_total t)
