-- ===== src/Store/History/Changes.antt =====
-- What one call does to the row of an event.
use pulse_stream.Common.{
  ℕ, ◌≡◌, ◌⊎◌, inl, inr, refl, ◌∙◌, true, Bool-cases, some, none, min, arith, [], ◌∷◌, ◌++◌,
  if◌then◌else◌,
}
use pulse_stream.Idempotency.{IdempotencyKey, RequestFingerprint}
use pulse_stream.Event.{Event, EventId, WorkerId, pending}
use pulse_stream.Store.Schema.{Row, Table, find_by_id, new_row}
use pulse_stream.Store.Invariant.Appends.{find_by_id-append_hit}
use pulse_stream.Store.Admit.Cases.{admit_cases}
use pulse_stream.Store.Claim.{lease_row, is_chosen, candidates, update_chosen, max_limit}
use pulse_stream.Store.Claim.Keeps.{claim_cases}
use pulse_stream.Store.Claim.Returned.{find_by_id-update_chosen}
use pulse_stream.Store.Complete.{holds_claim, complete_row, complete_rows}
use pulse_stream.Store.Complete.Exact.{IsHeldBy, find_by_id-complete_rows}
use pulse_stream.Store.Complete.Keeps.{complete_cases}
use pulse_stream.Store.History.{Step, admits, claims, completes}

-- A claim may lease the row to its worker; a completion may complete a row of its event that its
-- worker holds.
abbrev pub Changes : {t u : Table} → Step t u → Row → Row → Type 0
Changes (admits io now event key fingerprint v) r s = s ≡ r
Changes (claims reply now locked owner limit lease) r s =
    (s ≡ r) ⊎ (s ≡ lease_row owner now lease r)
Changes (completes reply now eid owner) r s =
    (s ≡ r) ⊎ ((s ≡ complete_row now r) × (r.event_id ≡ eid.uuid) × IsHeldBy owner r)

update_chosen-none :
    (owner : WorkerId) (now lease : ℕ) (chosen : Table) (id : ℕ) (t : Table)
    → find_by_id id t ≡ none
    → find_by_id id (update_chosen owner now lease chosen t) ≡ none
unfolding find_by_id update_chosen lease_row
update_chosen-none owner now lease chosen id [] h = refl
update_chosen-none owner now lease chosen id (r ∷ t) h =
    ground (arith, update_chosen-none owner now lease chosen id t)

complete_rows-none :
    (now : ℕ) (eid : EventId) (owner : WorkerId) (id : ℕ) (t : Table)
    → find_by_id id t ≡ none
    → find_by_id id (complete_rows now eid owner t) ≡ none
unfolding find_by_id complete_rows complete_row
complete_rows-none now eid owner id [] h = refl
complete_rows-none now eid owner id (r ∷ t) h =
    ground (arith, complete_rows-none now eid owner id t)

appended-pending :
    (id now : ℕ) (event : Event) (key : IdempotencyKey) (fingerprint : RequestFingerprint)
    (t : Table) (s : Row)
    → find_by_id id t ≡ none
    → find_by_id id (t ++ new_row now event key fingerprint ∷ []) ≡ some s
    → s.status ≡ pending
unfolding find_by_id new_row
appended-pending id now event key fingerprint [] s h g = ground arith
appended-pending id now event key fingerprint (r ∷ t) s h g =
    ground (arith, appended-pending id now event key fingerprint t s)

holds_claim_lem :
    (eid : EventId) (owner : WorkerId) (r : Row)
    → holds_claim eid owner r ≡ true
    → (r.event_id ≡ eid.uuid) × IsHeldBy owner r
unfolding holds_claim
holds_claim_lem eid owner r h = ground arith

-- A row that a call adds is pending.
pub Step-new :
    {t u : Table} (id : ℕ) (s : Row) (st : Step t u)
    → find_by_id id t ≡ none
    → find_by_id id u ≡ some s
    → s.status ≡ pending
Step-new {t} id s (admits io now event key fingerprint v) f g =
    elim (admit_cases io now event key fingerprint t) [
      | inl e ↦ cc (f, rw e at g)
      | inr (k, i, e) ↦ appended-pending id now event key fingerprint t s f (rw e at g)
    ]
Step-new {t} id s (claims reply now locked owner limit lease) f g =
    elim (claim_cases reply now locked owner limit lease t) [
      | inl e ↦ cc (f, rw e at g)
      | inr e ↦ cc (
        update_chosen-none owner now lease (candidates now locked (min limit max_limit) t) id t f,
        rw e at g,
      )
    ]
Step-new {t} id s (completes reply now eid owner) f g =
    elim (complete_cases now eid owner reply t) [
      | inl e ↦ cc (f, rw e at g)
      | inr e ↦ cc (complete_rows-none now eid owner id t f, rw e at g)
    ]

-- The row that is found is the one that the call left.
found_row :
    (id : ℕ) (u : Table) (q s : Row) → find_by_id id u ≡ some q → find_by_id id u ≡ some s → s ≡ q
found_row id u q s f g = cc

-- A row that was there is left, or changed as the call may change it.
pub Step-Changes :
    {t u : Table} (id : ℕ) (r s : Row) (st : Step t u)
    → find_by_id id t ≡ some r
    → find_by_id id u ≡ some s
    → Changes st r s
Step-Changes {t} id r s (admits io now event key fingerprint v) f g =
    elim (admit_cases io now event key fingerprint t) [
      | inl e ↦ found_row id _ r s (rw e f) g
      | inr (k, i, e) ↦ found_row id _ r s (rw e (find_by_id-append_hit id t _ r f)) g
    ]
Step-Changes {t} id r s (claims reply now locked owner limit lease) f g =
    elim (claim_cases reply now locked owner limit lease t) [
      | inl e ↦ inl (found_row id _ r s (rw e f) g)
      | inr e ↦
          let chosen = candidates now locked (min limit max_limit) t in
          let p =
            found_row id _ (if is_chosen chosen r then lease_row owner now lease r else r) s
              (rw e (find_by_id-update_chosen owner now lease _ id t r f)) g in
          elim (Bool-cases (is_chosen chosen r)) [ inl h ↦ inr (p ∙ rw h) | inr h ↦ inl (p ∙ rw h) ]
    ]
Step-Changes {t} id r s (completes reply now eid owner) f g =
    elim (complete_cases now eid owner reply t) [
      | inl e ↦ inl (found_row id _ r s (rw e f) g)
      | inr e ↦
          let p =
            found_row id _ (if holds_claim eid owner r then complete_row now r else r) s
              (rw e (find_by_id-complete_rows now eid owner id t r f)) g in
          elim (Bool-cases (holds_claim eid owner r)) [
            | inl h ↦ let (i, held) = holds_claim_lem eid owner r h in inr (p ∙ rw h, i, held)
            | inr h ↦ inl (p ∙ rw h)
          ]
    ]
