-- ===== src/Store/Claim/Returned.antt =====
-- What a claim returns and what it does to each row.
use pulse_stream.Common.{
  ℕ, ◌+◌, ◌≤◌, ◌≡◌, refl, ◌∙◌, inl, inr, Bool, true, false, In, In-filter, Bool-cases, ==_iff,
  ==_refl, ◌==◌, some, >>=-eq-ok, ◌↔◌, ok, min, arith, List, [], ◌∷◌, map, if◌then◌else◌,
}
use text.Mathlib.Text.{◌==◌ as str_eq}
use pulse_stream.Event.{
  EventStatus, pending, processing, processed, WorkerId, as_db_str, parse_source, parse_event_type,
}
use pulse_stream.Store.Errors.{acknowledged}
use pulse_stream.Store.Schema.{Row, Table, find_by_id}
use pulse_stream.Store.Invariant.{IsSound, HasUniqueIds}
use pulse_stream.Store.Claim.{
  ClaimedEvent, is_claimable, candidates, is_chosen, lease_row, update_chosen, returned, to_claimed,
  collect, claim, max_limit,
}
use pulse_stream.Store.Claim.Waiting.{IsWaiting, is_claimable_iff}
use pulse_stream.Store.Claim.Candidates.{candidates_lem, chosen-In, find_by_id-In}

pub find_by_id_of_In :
    (t : Table) (r : Row) → HasUniqueIds t → In r t → find_by_id r.event_id t ≡ some r
unfolding find_by_id
find_by_id_of_In [] r u h = elim h [ ]
find_by_id_of_In (s ∷ t) r u (inl e) = rw (e, ==_refl s.event_id)
find_by_id_of_In (s ∷ t) r u (inr h) = elim (Bool-cases (s.event_id == r.event_id)) [
  | inl e ↦
      let q : s.event_id ≡ r.event_id = (==_iff _ _).0 e in
      absurd (find_by_id-In t r h (rw (← q) u.0))
  | inr e ↦ rw e (find_by_id_of_In t r u.1 h)
]

pub In-find_by_id : (id : ℕ) (t : Table) (r : Row) → find_by_id id t ≡ some r → In r t
unfolding find_by_id
In-find_by_id id [] r h = cc
In-find_by_id id (s ∷ t) r h = ground (arith, In-find_by_id id t r)

pub find_by_id-update_chosen :
    (owner : WorkerId) (now lease : ℕ) (chosen : Table) (id : ℕ) (t : Table) (r : Row)
    → find_by_id id t ≡ some r
    → find_by_id id (update_chosen owner now lease chosen t)
      ≡ some (if is_chosen chosen r then lease_row owner now lease r else r)
unfolding find_by_id update_chosen
find_by_id-update_chosen owner now lease chosen id [] r h = cc
find_by_id-update_chosen owner now lease chosen id (s ∷ t) r h =
    ground (arith, find_by_id-update_chosen owner now lease chosen id t r)

In-collect :
    (rows : List (Row × EventStatus)) (cs : List ClaimedEvent) (c : ClaimedEvent)
    → collect rows ≡ ok cs
    → In c cs
    → (x : Row × EventStatus) × In x rows × (to_claimed x ≡ ok c)
unfolding collect
In-collect [] cs c e h = let p : cs ≡ [] = cc in absurd (rw p at h)
In-collect (x ∷ xs) cs c e h =
    let (d, q, e') = >>=-eq-ok (to_claimed x) _ e in
    let (ds, q', e'') = >>=-eq-ok (collect xs) _ e' in
    let p : cs ≡ d ∷ ds = cc in in-collect_cons d ds q (rw p at h) (In-collect xs ds c q')
  where
    in-collect_cons :
        (d : ClaimedEvent) (ds : List ClaimedEvent)
        → to_claimed x ≡ ok d
        → In c (d ∷ ds)
        → (In c ds → (y : Row × EventStatus) × In y xs × (to_claimed y ≡ ok c))
        → (y : Row × EventStatus) × In y (x ∷ xs) × (to_claimed y ≡ ok c)
    in-collect_cons d ds q (inl k) rest = (x, inl refl, rw k q)
    in-collect_cons d ds q (inr k) rest = let (y, m, z) = rest k in (y, inr m, z)

In-returned :
    (owner : WorkerId) (now lease : ℕ) (rows : Table) (x : Row × EventStatus)
    → In x (map (λ r. (lease_row owner now lease r, r.status)) rows)
    → (r : Row) × In r rows × (x ≡ (lease_row owner now lease r, r.status))
In-returned owner now lease [] x h = elim h [ ]
In-returned owner now lease (r ∷ rows) x (inl e) = (r, inl refl, e)
In-returned owner now lease (r ∷ rows) x (inr h) =
    let (s, m, e) = In-returned owner now lease rows x h in (s, inr m, e)

-- What a claimed event says of the row that it was made from.
pub record Reports (c : ClaimedEvent) (r : Row) : Type 0 where
  pub id : c.event.id.uuid ≡ r.event_id
  pub source : c.event.source.text ≡ r.source
  pub event_type : c.event.event_type.text ≡ r.event_type
  pub payload : c.event.payload ≡ r.payload
  pub accepted_at : c.event.accepted_at ≡ r.accepted_at
  pub attempt : c.attempt ≡ r.delivery_attempts + 1
  pub reclaimed : (c.reclaimed ≡ true) ↔ (r.status ≡ processing)

is_reclaim_iff :
    (s : EventStatus) → (str_eq (as_db_str s) (as_db_str processing) ≡ true) ↔ (s ≡ processing)
unfolding as_db_str
is_reclaim_iff pending = ground arith
is_reclaim_iff processing = ground arith
is_reclaim_iff processed = ground arith

pub to_claimed-Reports :
    (owner : WorkerId) (now lease : ℕ) (r : Row) (c : ClaimedEvent)
    → to_claimed (lease_row owner now lease r, r.status) ≡ ok c
    → Reports c r
unfolding to_claimed lease_row parse_source parse_event_type
to_claimed-Reports owner now lease r c h = ground (arith, is_reclaim_iff r.status)

module _ (now : ℕ) (locked : ℕ → Bool) (owner : WorkerId) (limit lease : ℕ) (t : Table)
    (sound : IsSound t) where
  abbrev pub chosen_rows : Table
  chosen_rows = candidates now locked (min limit max_limit) t

  pub claim_ok :
      {cs : List ClaimedEvent}
      → 1 ≤ limit
      → (claim acknowledged now locked owner limit lease t).0 ≡ ok cs
      → (collect (returned owner now lease chosen_rows t) ≡ ok cs)
        × ((claim acknowledged now locked owner limit lease t).1
            ≡ update_chosen owner now lease chosen_rows t)
  unfolding claim
  claim_ok h e = ground arith

  -- The row of an event that is returned.
  pub claimed_row :
      {cs : List ClaimedEvent} (c : ClaimedEvent)
      → 1 ≤ limit
      → (claim acknowledged now locked owner limit lease t).0 ≡ ok cs
      → In c cs
      → (r : Row) × (find_by_id c.event.id.uuid t ≡ some r)
        × In r chosen_rows
        × (is_claimable now r ≡ true)
        × (locked r.event_id ≡ false)
        × Reports c r
        × (find_by_id c.event.id.uuid (claim acknowledged now locked owner limit lease t).1
            ≡ some (lease_row owner now lease r))
  unfolding returned
  claimed_row c h e m =
      let (q, after) = claim_ok h e in
      let (x, mx, ex) = In-collect _ _ c q m in
      let (r, mr, er) = In-returned owner now lease _ x mx in
      let (in_table, is_in) = In-filter (is_chosen chosen_rows) r t mr in
      let chosen = chosen-In now locked (min limit max_limit) t r sound.ids in_table is_in in
      let picked = candidates_lem now locked (min limit max_limit) t r chosen in
      let reports = to_claimed-Reports owner now lease r c (rw (← er) ex) in
      let hit : find_by_id c.event.id.uuid t ≡ some r =
        rw reports.id (find_by_id_of_In t r sound.ids in_table) in
      (
        r,
        hit,
        chosen,
        picked.1,
        picked.2,
        reports,
        rw after (
            find_by_id-update_chosen owner now lease chosen_rows c.event.id.uuid t r hit
            ∙ rw is_in),
      )

  -- Every event that an acknowledged claim of one event or more on a sound table returns is a row
  -- of the table that waited, which is to say that it was pending or its lease had ended, and that
  -- no other transaction had locked. The event reports the row. In the table that is left the row
  -- is being processed by the claiming worker since now, under a lease of the length that was asked
  -- for, with one more attempt and its other fields as they were.
  pub claim_returns :
      {cs : List ClaimedEvent} (c : ClaimedEvent)
      → 1 ≤ limit
      → (claim acknowledged now locked owner limit lease t).0 ≡ ok cs
      → In c cs
      → (r : Row) × (find_by_id c.event.id.uuid t ≡ some r)
        × IsWaiting now r
        × (locked r.event_id ≡ false)
        × Reports c r
        × (find_by_id c.event.id.uuid (claim acknowledged now locked owner limit lease t).1
            ≡ some (record r {
              status = processing;
              processing_owner = some owner.uuid;
              processing_started_at = some now;
              lease_expires_at = some (now + lease);
              delivery_attempts = r.delivery_attempts + 1;
            }))
  unfolding lease_row
  claim_returns c h e m =
      let (r, f, i, k, l, p, g) = claimed_row c h e m in
      (r, f, (is_claimable_iff now r).0 k, l, p, g)
