-- ===== src/Store/Claim/Taken.antt =====
-- Which events a claim returns and which it leaves behind.
use pulse_stream.Common.{
  ℕ, ◌<◌, ◌≤◌, ◌≡◌, ◌⊎◌, ◌∙◌, inl, inr, refl, some, arith, Bool, false, In, any, leb, min, ok,
  >>=-eq-ok, List, [], ◌∷◌, map,
}
use pulse_stream.Event.{EventStatus, WorkerId}
use pulse_stream.Store.Errors.{acknowledged}
use pulse_stream.Store.Schema.{Row, Table, find_by_id}
use pulse_stream.Store.Invariant.{IsSound}
use pulse_stream.Store.Claim.{
  ClaimedEvent, candidates, is_chosen, lease_row, returned, to_claimed, collect, claim, max_limit,
  max_attempts,
}
use pulse_stream.Store.Claim.Waiting.{
  IsWaiting, IsBefore, is_claimable_iff, is_older-IsBefore, Waiting, any-false,
}
use pulse_stream.Store.Claim.Candidates.{is_chosen_of_In, candidates_lem}
use pulse_stream.Store.Claim.Returned.{Reports, claim_ok, claimed_row, to_claimed-Reports}
use pulse_stream.Store.Claim.Bound.{claim_total}
use pulse_stream.Store.Claim.Order.{candidates_oldest, candidates_all, In-filter_of_In}

-- Every row of the answer is among the collected events.
collect-In :
    (rows : List (Row × EventStatus)) (cs : List ClaimedEvent) (x : Row × EventStatus)
    → collect rows ≡ ok cs
    → In x rows
    → (c : ClaimedEvent) × In c cs × (to_claimed x ≡ ok c)
unfolding collect
collect-In [] cs x e h = elim h [ ]
collect-In (y ∷ ys) cs x e h =
    let (d, q, e') = >>=-eq-ok (to_claimed y) _ e in
    let (ds, q', e'') = >>=-eq-ok (collect ys) _ e' in
    let p : cs ≡ d ∷ ds = cc in
    elim h [
      | inl k ↦ (d, rw p (inl refl), rw k q)
      | inr k ↦ let (c, m, z) = collect-In ys ds x q' k in (c, rw p (inr m), z)
    ]

map-In :
    (owner : WorkerId) (now lease : ℕ) (r : Row) (rows : Table)
    → In r rows
    → In {A = Row × EventStatus}
        (lease_row owner now lease r, r.status)
        (map (λ q. (lease_row owner now lease q, q.status)) rows)
map-In owner now lease r [] h = elim h [ ]
map-In owner now lease r (q ∷ rows) (inl e) = inl (rw e refl)
map-In owner now lease r (q ∷ rows) (inr h) = inr (map-In owner now lease r rows h)

module _ (now : ℕ) (locked : ℕ → Bool) (owner : WorkerId) (limit lease : ℕ) (t : Table)
    (sound : IsSound t) (asked : 1 ≤ limit) where
  -- Every candidate of an acknowledged claim is returned.
  candidate_returned :
      {cs : List ClaimedEvent} (r : Row)
      → (claim acknowledged now locked owner limit lease t).0 ≡ ok cs
      → In r (candidates now locked (min limit max_limit) t)
      → (c : ClaimedEvent) × In c cs × Reports c r
  unfolding returned
  candidate_returned r answer m =
      let chosen = candidates now locked (min limit max_limit) t in
      let in_table = (candidates_lem now locked (min limit max_limit) t r m).0 in
      let x =
        map-In owner now lease r _
          (In-filter_of_In (is_chosen chosen) r t in_table (is_chosen_of_In chosen r m)) in
      let (q, after) = claim_ok now locked owner limit lease t sound asked answer in
      let (c, i, z) = collect-In _ _ _ q x in (c, i, to_claimed-Reports owner now lease r c z)

  -- An acknowledged claim of one event or more on a sound table leaves an event behind that waits
  -- and that no other transaction has locked only for older ones: each such event is returned too,
  -- or each event that is returned was accepted before it, or at the same time with a smaller ID.
  pub oldest_first :
      {cs : List ClaimedEvent} (c : ClaimedEvent) (s : Row)
      → (claim acknowledged now locked owner limit lease t).0 ≡ ok cs
      → In c cs
      → In s t
      → IsWaiting now s
      → locked s.event_id ≡ false
      → ((d : ClaimedEvent) × In d cs × (d.event.id.uuid ≡ s.event_id))
        ⊎ ((r : Row) × (find_by_id c.event.id.uuid t ≡ some r) × IsBefore r s)
  oldest_first c s answer m k w free =
      let (r, f, i, l, u, p, g) =
        claimed_row now locked owner limit lease t sound c asked answer m in
      elim (candidates_oldest now locked (min limit max_limit) t r s i k
        ((is_claimable_iff now s).1 w) free) [
          | inl j ↦ let (d, n, q) = candidate_returned s answer j in inl (d, n, q.id)
          | inr o ↦ elim (is_older-IsBefore r s o) [
            | inl b ↦ inr (r, f, b)
            | inr e ↦ inl (c, m, p.id ∙ e)
          ]
        ]

  -- An acknowledged claim of one event or more on a sound table that asks for no fewer events than
  -- wait unlocked, and none of these with its counter of delivery attempts used up, returns every
  -- row of the table that waits and that no other transaction has locked.
  pub claims_row :
      (r : Row) {n : ℕ}
      → Waiting now locked t n
      → n ≤ min limit max_limit
      → ((q : Row) → In q t → IsWaiting now q → q.delivery_attempts < max_attempts)
      → In r t
      → IsWaiting now r
      → locked r.event_id ≡ false
      → (cs : List ClaimedEvent) × (c : ClaimedEvent) × ((claim acknowledged now locked owner limit
            lease t).0
          ≡ ok cs)
        × In c cs
        × Reports c r
  claims_row r count room attempts m waiting free =
      let chosen = candidates now locked (min limit max_limit) t in
      let fresh : any (λ q. leb max_attempts q.delivery_attempts) chosen ≡ false =
        any-false _ chosen (λ q i.
          let (k, c, l) = candidates_lem now locked (min limit max_limit) t q i in
          let few = attempts q k ((is_claimable_iff now q).0 c) in ground (arith, few)) in
      let (cs, answer) = claim_total now locked owner limit lease t sound fresh in
      let member = candidates_all (min limit max_limit) r count room m waiting free in
      let (c, i, p) = candidate_returned r answer member in (cs, c, answer, i, p)
