-- ===== src/System/Delivery.antt =====
-- From a waiting event to what its producer is told: a claim, a completion and a lookup.
use pulse_stream.Common.{
  ℕ, ◌+◌, ◌<◌, ◌≤◌, ◌≡◌, inl, inr, ap, Bool, false, In, min, Text, some, ok, List, Option,
}
use pulse_stream.Event.{EventId, WorkerId}
use pulse_stream.Store.Errors.{acknowledged}
use pulse_stream.Store.Schema.{Row, Table, find_by_id}
use pulse_stream.Store.Invariant.{IsSound, Evolves, Evolves-trans}
use pulse_stream.Store.Claim.{ClaimedEvent, claim, max_limit, max_attempts}
use pulse_stream.Store.Claim.Keeps.{claim-IsSound}
use pulse_stream.Store.Claim.Returned.{Reports, In-find_by_id}
use pulse_stream.Store.Claim.Waiting.{IsWaiting, Waiting}
use pulse_stream.Store.Claim.Taken.{claims_row}
use pulse_stream.Store.Complete.{complete}
use pulse_stream.Store.Complete.Keeps.{complete-Evolves}
use pulse_stream.Store.History.{History, History-IsSound}
use pulse_stream.Store.Leases.{AllBefore}
use pulse_stream.Store.Leases.Exclusive.{lease_completes}
use pulse_stream.Api.Events.{Platform}
use pulse_stream.Api.Events.Reported.{IsReportedProcessed, processed-IsReported, completed_reported}

module _ (p : Platform) (now : ℕ) (locked : ℕ → Bool) (owner : WorkerId) (limit lease : ℕ)
    (t : Table) (sound : IsSound t) (asked : 1 ≤ limit) where
  abbrev after : Table
  after = (claim acknowledged now locked owner limit lease t).1

  -- A worker that claims on a sound table, asking for no fewer events than wait unlocked, and none of
  -- the waiting ones with its counter of delivery attempts used up: the claim returns the event of a
  -- row that waits, being pending or with its lease ended, and that no other transaction has locked.
  -- Whatever is called before the end of its lease: after an acknowledged completion of the event
  -- by the worker before that end, every later lookup by a text of the event's ID is answered with
  -- 200, the ID and `processed`.
  pub delivery_reported :
      (r : Row) {n : ℕ} (u : Table) (h : History after u) (now' : ℕ) (v : Table) (path : Text)
      → Waiting now locked t n
      → n ≤ min limit max_limit
      → ((q : Row) → In q t → IsWaiting now q → q.delivery_attempts < max_attempts)
      → find_by_id r.event_id t ≡ some r
      → IsWaiting now r
      → locked r.event_id ≡ false
      → AllBefore (now + lease) h
      → Evolves (complete acknowledged now' (record { uuid = r.event_id }) owner u).1 v
      → p.uuid_text.try_parse path ≡ some r.event_id
      → (cs : List ClaimedEvent) × (c : ClaimedEvent) × ((claim acknowledged now locked owner limit
            lease t).0
          ≡ ok cs)
        × In c cs
        × Reports c r
        × (time : Option ℕ) × IsReportedProcessed p path r.event_id time v
  delivery_reported r u h now' v path count room attempts found ready free before later parses =
      let (cs, c, answer, member, reports) =
        claims_row now locked owner limit lease t sound asked r count room attempts
          (In-find_by_id _ t r found) ready free in
      let id : EventId = record { uuid = r.event_id } in
      let same : c.event.id ≡ id = ap (λ n. record { uuid = n }) reports.id in
      let after_sound =
        History-IsSound h (claim-IsSound acknowledged now locked owner limit lease t sound) in
      let told : (time : Option ℕ) × IsReportedProcessed p path r.event_id time v =
        elim (lease_completes now locked owner limit lease t sound asked answer c member u h now'
          before) [
            | inl done ↦ (
              some now',
              completed_reported p now' id owner u path v after_sound (rw same at done) later
                  parses,
            )
            | inr (s, f, q) ↦ (
              s.processed_at,
              processed-IsReported p path id s u v parses (rw reports.id at f) q
                  (Evolves-trans u _ v (complete-Evolves acknowledged now' id owner u) later),
            )
          ] in
      (cs, c, answer, member, reports, told.0, told.1)
