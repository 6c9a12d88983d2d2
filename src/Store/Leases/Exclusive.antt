-- ===== src/Store/Leases/Exclusive.antt =====
-- Exclusive delivery until the lease ends, and what it does not cover.
use pulse_stream.Common.{
  ℕ, ◌+◌, ◌<◌, ◌≤◌, ◌≡◌, ◌≢◌, ◌⊎◌, inl, inr, refl, Bool, true, In, some, ok, List,
}
use pulse_stream.Event.{WorkerId, processed}
use pulse_stream.Store.Errors.{acknowledged}
use pulse_stream.Store.Schema.{Row, Table, find_by_id}
use pulse_stream.Store.Invariant.{IsSound}
use pulse_stream.Store.Claim.{ClaimedEvent, lease_row, claim}
use pulse_stream.Store.Claim.Keeps.{claim-IsSound}
use pulse_stream.Store.Claim.Returned.{claimed_row}
use pulse_stream.Store.Complete.{complete}
use pulse_stream.Store.Complete.Exact.{complete_exact}
use pulse_stream.Store.History.{History, History-IsSound}
use pulse_stream.Store.Leases.{AllBefore, IsLeased, History-IsLeased, not-claimable}

module _ (now : ℕ) (locked : ℕ → Bool) (owner : WorkerId) (limit lease : ℕ) (t : Table)
    (sound : IsSound t) (some_asked : 1 ≤ limit) {cs : List ClaimedEvent}
    (claimed : (claim acknowledged now locked owner limit lease t).0 ≡ ok cs) (c : ClaimedEvent)
    (member : In c cs) where
  abbrev after : Table
  after = (claim acknowledged now locked owner limit lease t).1

  has_lease :
      (r : Row) × (find_by_id c.event.id.uuid after ≡ some r) × IsLeased owner (now + lease) r
  unfolding lease_row
  has_lease =
      let (r, f, i, k, l, p, g) =
        claimed_row now locked owner limit lease t sound c some_asked claimed member in
      (lease_row owner now lease r, g, inl (refl, refl, refl))

  after-IsSound : IsSound after
  after-IsSound = claim-IsSound acknowledged now locked owner limit lease t sound

  -- For an event that an acknowledged claim on a sound table returned: after any calls made before
  -- the end of its lease, no acknowledged claim made before that end returns it, to another worker
  -- or to the same one.
  pub lease_exclusive :
      (u : Table) (h : History after u) (now' : ℕ) (locked' : ℕ → Bool) (other : WorkerId)
      (limit' lease' : ℕ) {ds : List ClaimedEvent} (d : ClaimedEvent)
      → AllBefore (now + lease) h
      → now' < now + lease
      → 1 ≤ limit'
      → (claim acknowledged now' locked' other limit' lease' u).0 ≡ ok ds
      → In d ds
      → d.event.id.uuid ≢ c.event.id.uuid
  lease_exclusive u h now' locked' other limit' lease' d b before asked e m same =
      let (r, f, l) = has_lease in
      let (s, g, k) =
        History-IsLeased owner (now + lease) c.event.id.uuid r h after-IsSound b f l in
      let (q, f', i, claimable, free, reports, left) =
        claimed_row now' locked' other limit' lease' u (History-IsSound h after-IsSound) d asked e
          m in
      let p : q ≡ s = cc (f', g, same) in
      cc (not-claimable owner (now + lease) now' s k before, claimable, p)

  -- For an event that an acknowledged claim on a sound table returned: after any calls made before
  -- the end of its lease, an acknowledged completion by the claiming worker is answered with true,
  -- unless the event is processed already.
  pub lease_completes :
      (u : Table) (h : History after u) (now' : ℕ)
      → AllBefore (now + lease) h
      → ((complete acknowledged now' c.event.id owner u).0 ≡ ok true)
        ⊎ ((r : Row) × (find_by_id c.event.id.uuid u ≡ some r) × (r.status ≡ processed))
  lease_completes u h now' b =
      let (r, f, l) = has_lease in
      let (s, g, k) =
        History-IsLeased owner (now + lease) c.event.id.uuid r h after-IsSound b f l in
      elim k [
        | inr done ↦ inr (s, g, done)
        | inl held ↦
            elim (complete_exact now' c.event.id owner u (History-IsSound h after-IsSound)) [
              | inl x ↦ inl x.3
              | inr x ↦ absurd (x.0 (s, g, (held.0, held.1)))
            ]
      ]
