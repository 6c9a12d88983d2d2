-- ===== src/Store/Settled.antt =====
-- What the first admission of a key settles for all later ones.
use pulse_stream.Common.{
  ℕ, ◌≡◌, refl, ◌∙◌, sym, Text, Bytes, text_eq_refl, Option-cases, inl, inr, none, some, ok,
}
use pulse_stream.Event.{Event}
use pulse_stream.Event.Labels.{IsValidEvent}
use pulse_stream.Idempotency.{IdempotencyKey, RequestFingerprint}
use pulse_stream.Store.Schema.{Table, find_by_key}
use pulse_stream.Store.Invariant.{IsSound, Evolves}
use pulse_stream.Store.Invariant.Lookups.{find_by_key-Evolves}
use pulse_stream.Store.Admit.{AdmitIo, AdmitOutcome, admit}
use pulse_stream.Store.Admit.Keeps.{admit-IsSound}
use pulse_stream.Store.Admit.Ledger.{Entry, ledger, judge, record_entry, admit_refines}
use pulse_stream.Store.History.{History, History-Evolves}

-- An entry of the ledger stays.
ledger-Evolves :
    (source key : Text) (t u : Table) (e : ℕ × Bytes)
    → Evolves t u
    → ledger t source key ≡ some e
    → ledger u source key ≡ some e
ledger-Evolves source key t u e v h = elim (Option-cases (find_by_key source key t)) [
  | inl f ↦ let n : ledger t source key ≡ none = rw f refl in cc (n, h)
  | inr (r, f) ↦
      let (s, g, same) = find_by_key-Evolves source key t u r v f in
      let p : ledger t source key ≡ some (r.event_id, r.request_fingerprint) = rw f refl in
      let q : ledger u source key ≡ some (s.event_id, s.request_fingerprint) = rw g refl in
      q ∙ rw (same.same_id, same.same_fingerprint) (sym p ∙ h)
]

record_entry-some :
    (e : Entry) (event : Event) (fingerprint : RequestFingerprint)
    → (x : ℕ × Bytes) × (record_entry e event.id fingerprint ≡ some x)
record_entry-some none event fingerprint = ((event.id.uuid, fingerprint.bytes), refl)
record_entry-some (some x) event fingerprint = (x, refl)

-- After a successful admission of a valid event, on a sound table, and any calls of the store: every later
-- successful admission for the same source with the same key is answered by the entry that the first one
-- left, its own event if the key was new. So it is a replay of that event if the fingerprints are
-- the same, a conflict otherwise, and never a second creation.
pub key_settled :
    (io : AdmitIo) (now : ℕ) (event : Event) (key : IdempotencyKey)
    (fingerprint : RequestFingerprint) (t u : Table) (io' : AdmitIo) (now' : ℕ) (event' : Event)
    (key' : IdempotencyKey) (fingerprint' : RequestFingerprint) {o o' : AdmitOutcome}
    → IsSound t
    → IsValidEvent event
    → (admit io now event key fingerprint t).0 ≡ ok o
    → History (admit io now event key fingerprint t).1 u
    → (admit io' now' event' key' fingerprint' u).0 ≡ ok o'
    → event'.source.text ≡ event.source.text
    → key'.text ≡ key.text
    → (first : ℕ × Bytes) × (record_entry (ledger t event.source.text key.text) event.id fingerprint
        ≡ some first)
      × (o' ≡ judge (some first) event'.id fingerprint')
key_settled io now event key fingerprint t u io' now' event' key' fingerprint' sound valid h k h'
      same_source same_key =
    let source = event.source.text in
    let text = key.text in
    let (first, e) = record_entry-some (ledger t source text) event fingerprint in
    let recorded : ledger (admit io now event key fingerprint t).1 source text ≡ some first =
      (admit_refines io now event key fingerprint t source text h).1
      ∙ rw (text_eq_refl source, text_eq_refl text) e in
    let v = History-Evolves k (admit-IsSound io now event key fingerprint t valid sound) in
    let later = ledger-Evolves source text _ u first v recorded in
    let answered = (admit_refines io' now' event' key' fingerprint' u source text h').0 in
    (first, e, answered ∙ rw (same_source, same_key, later) refl)
