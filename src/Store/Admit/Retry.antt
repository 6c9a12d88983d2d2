-- ===== src/Store/Admit/Retry.antt =====
-- What a recorded request means for later requests and lookups.
use pulse_stream.Common.{
  ℕ, ◌≤◌, ◌≡◌, ◌≢◌, ◌∙◌, true, Text, text_eq, text_eq_refl, length, if◌then◌else◌, none, some, inl,
  inr, ok, arith, [], ◌∷◌,
}
use pulse_stream.Event.{Event}
use pulse_stream.Event.Labels.{IsLabel, IsValidEvent}
use pulse_stream.Idempotency.{IdempotencyKey, RequestFingerprint}
use pulse_stream.Idempotency.Keys.{IsKey}
use pulse_stream.Store.Errors.{acknowledged}
use pulse_stream.Store.Schema.{Row, Table, find_by_key, find_by_id, new_row, passes_checks}
use pulse_stream.Store.Invariant.{Evolves}
use pulse_stream.Store.Invariant.Lookups.{find_by_key-Evolves, find_by_id-Evolves}
use pulse_stream.Store.Invariant.Appends.{find_by_key-append, find_by_id-append}
use pulse_stream.Store.Admit.{AdmitIo, replayed, conflict, admit}
use pulse_stream.Store.Admit.Cases.{admit_cases}
use pulse_stream.Store.Lookup.{EventRecord, record_of, get, get_lem}

-- No statement fails and the commit is acknowledged.
pub record IsHealthy (io : AdmitIo) : Type 0 where
  pub begins : io.begin ≡ none
  pub inserts : io.insert ≡ none
  pub selects : io.select ≡ none
  pub commits : io.reply ≡ acknowledged

length-pos : (limit : ℕ) (value : Text) → IsLabel limit value → 1 ≤ length value
length-pos limit [] l = cc l.visible
length-pos limit (c ∷ s) l = omega arith

-- What the code has validated meets the constraints of the table.
pub passes_checks_of_valid :
    (event : Event) (key : IdempotencyKey) (fingerprint : RequestFingerprint)
    → IsValidEvent event
    → IsKey key.text
    → length fingerprint.bytes ≡ 32
    → passes_checks event key fingerprint ≡ true
unfolding passes_checks
passes_checks_of_valid event key fingerprint v k f = ground (
  arith,
  length-pos _ event.source.text v.source_label,
  length-pos _ event.event_type.text v.type_label,
  v.source_label.short,
  v.type_label.short,
  v.not_null,
  k.not_empty,
  k.short,
)

pub admit_recorded :
    (io : AdmitIo) (now : ℕ) (event : Event) (key : IdempotencyKey)
    (fingerprint : RequestFingerprint) (t : Table) (r : Row)
    → IsHealthy io
    → passes_checks event key fingerprint ≡ true
    → find_by_key event.source.text key.text t ≡ some r
    → admit io now event key fingerprint t ≡ (
      ok (
          if text_eq r.request_fingerprint fingerprint.bytes
          then replayed (record { uuid = r.event_id })
          else conflict),
      t,
    )
unfolding admit
admit_recorded io now event key fingerprint t r h p f =
    rw (h.begins, h.inserts, h.selects, h.commits, p, f) (ground arith)

-- The row that a call adds is found by its key and by its identity.
module _ (io : AdmitIo) (now : ℕ) (event : Event) (key : IdempotencyKey)
    (fingerprint : RequestFingerprint) (t : Table)
    (committed : (admit io now event key fingerprint t).1 ≢ t) where
  added_by_key :
      find_by_key event.source.text key.text (admit io now event key fingerprint t).1
      ≡ some (new_row now event key fingerprint)
  unfolding find_by_key new_row
  added_by_key = elim (admit_cases io now event key fingerprint t) [
    | inl e ↦ absurd (committed e)
    | inr (k, i, e) ↦ rw e (
        find_by_key-append event.source.text key.text t (new_row now event key fingerprint) k
        ∙ rw (text_eq_refl event.source.text, text_eq_refl key.text))
  ]

  added_by_id :
      find_by_id event.id.uuid (admit io now event key fingerprint t).1
      ≡ some (new_row now event key fingerprint)
  unfolding find_by_id new_row
  added_by_id = elim (admit_cases io now event key fingerprint t) [
    | inl e ↦ absurd (committed e)
    | inr (k, i, e) ↦
        rw e
          (find_by_id-append event.id.uuid t (new_row now event key fingerprint) i ∙ ground arith)
  ]

  -- A call that committed a row, whether or not its caller heard of it, owns its scoped key from
  -- then on: in any table that the committed one evolves to, a healthy and valid request with the
  -- same source and key is answered with the original event ID if its fingerprint is the same, and
  -- with a conflict otherwise, and it writes nothing.
  pub retry_lem :
      (io' : AdmitIo) (now' : ℕ) (event' : Event) (fingerprint' : RequestFingerprint) (u : Table)
      → Evolves (admit io now event key fingerprint t).1 u
      → IsHealthy io'
      → IsValidEvent event'
      → IsKey key.text
      → length fingerprint'.bytes ≡ 32
      → event'.source.text ≡ event.source.text
      → admit io' now' event' key fingerprint' u ≡ (
        ok (if text_eq fingerprint.bytes fingerprint'.bytes then replayed event.id else conflict),
        u,
      )
  unfolding new_row
  retry_lem io' now' event' fingerprint' u v h valid k f s =
      let (r, found, w) = find_by_key-Evolves event.source.text key.text _ u _ v added_by_key in
      let found' : find_by_key event'.source.text key.text u ≡ some r = rw s found in
      admit_recorded io' now' event' key fingerprint' u r h
        (passes_checks_of_valid event' key fingerprint' valid k f) found'
      ∙ rw (w.same_fingerprint, w.same_id)

  -- A call that committed a row: in any table that the committed one evolves to, a lookup of its
  -- ID finds it with the source, the type and the acceptance time that it was stored with.
  pub committed_visible :
      (to_char : ℕ → Text) (u : Table)
      → Evolves (admit io now event key fingerprint t).1 u
      → (r : EventRecord) × (get to_char none event.id u ≡ ok (some r))
        × (r.event_id ≡ event.id)
        × (r.source ≡ event.source.text)
        × (r.event_type ≡ event.event_type.text)
        × (r.accepted_at ≡ to_char now)
  unfolding new_row
  committed_visible to_char u v =
      let (r, found, w) = find_by_id-Evolves event.id.uuid _ u _ v added_by_id in
      (
        record_of to_char r r.status,
        get_lem to_char event.id u r found,
        cc (w.same_id),
        w.same_source,
        w.same_type,
        cc (w.same_time),
      )
