-- ===== src/Api/Events/Reported.antt =====
-- What a client is told of an event that a worker has completed.
use pulse_stream.Common.{ℕ, ◌≡◌, refl, ap, subst, inl, inr, true, Text, none, some, ok, Option}
use pulse_stream.Event.{EventId, WorkerId, processed, as_api_str}
use pulse_stream.Store.Errors.{acknowledged}
use pulse_stream.Store.Schema.{Row, Table, find_by_id}
use pulse_stream.Store.Invariant.{IsSound, Evolves}
use pulse_stream.Store.Invariant.Lookups.{find_by_id-Evolves, find_by_id_hit}
use pulse_stream.Store.Complete.{complete}
use pulse_stream.Store.Complete.Exact.{complete_exact}
use pulse_stream.Store.Lookup.{format_processed, record_of, get_lem}
use pulse_stream.Api.Response.{EventStatusResponse, status_body}
use pulse_stream.Api.Events.{Platform, get_event}
use pulse_stream.Api.Events.Retries.{status_of, get_event_found}

completed_row :
    (now : ℕ) (id : EventId) (owner : WorkerId) (t : Table)
    → IsSound t
    → (complete acknowledged now id owner t).0 ≡ ok true
    → (r : Row) × (find_by_id id.uuid (complete acknowledged now id owner t).1 ≡ some r)
      × (r.status ≡ processed)
      × (r.processed_at ≡ some now)
completed_row now id owner t s h = elim (complete_exact now id owner t s) [
  | inl (r, f, held, answer, found) ↦ (
    record r {
      status = processed;
      processed_at = some now;
      processing_owner = none;
      lease_expires_at = none;
    },
    found,
    refl,
    refl,
  )
  | inr (n, e) ↦ cc (h, e)
]

-- The answer to a lookup of a processed event, with the time at which it became so.
abbrev pub IsReportedProcessed : Platform → Text → ℕ → Option ℕ → Table → Type 0
IsReportedProcessed p path id time u =
    (s : EventStatusResponse) × (get_event p none path u
      ≡ ok (record { status = 200; replayed = none; retry_after = none; body = status_body s }))
    × (s.event_id ≡ p.uuid_text.display id)
    × (s.status ≡ "processed")
    × (s.processed_at ≡ format_processed p.to_char time)

-- A processed row is reported in every table that its table evolves to.
pub processed-IsReported :
    (p : Platform) (path : Text) (id : EventId) (r : Row) (t u : Table)
    → p.uuid_text.try_parse path ≡ some id.uuid
    → find_by_id id.uuid t ≡ some r
    → r.status ≡ processed
    → Evolves t u
    → IsReportedProcessed p path id.uuid r.processed_at u
unfolding as_api_str
processed-IsReported p path id r t u parses f q v =
    let (z, g, e) = find_by_id-Evolves id.uuid t u r v f in
    let same : z ≡ r = elim e.final [ inl n ↦ absurd (n q) | inr k ↦ k ] in
    let found = rw same at g in
    (
      status_of p (record_of p.to_char r r.status),
      get_event_found p path id u _ parses (get_lem p.to_char id u r found),
      ap p.uuid_text.display (find_by_id_hit id.uuid u r found),
      rw q refl,
      refl,
    )

-- A completion that was acknowledged to its worker with true, on a sound table: in any table that
-- the completed one evolves to, a lookup by a text of the event's ID is answered with 200, the ID,
-- the state `processed` and the time of the completion.
pub completed_reported :
    (p : Platform) (now : ℕ) (id : EventId) (owner : WorkerId) (t : Table) (path : Text) (u : Table)
    → IsSound t
    → (complete acknowledged now id owner t).0 ≡ ok true
    → Evolves (complete acknowledged now id owner t).1 u
    → p.uuid_text.try_parse path ≡ some id.uuid
    → IsReportedProcessed p path id.uuid (some now) u
completed_reported p now id owner t path u s h v parses =
    let (r, f, q, w) = completed_row now id owner t s h in
    subst (λ time. IsReportedProcessed p path id.uuid time u) w
      (processed-IsReported p path id r _ u parses f q v)
