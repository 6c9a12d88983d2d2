-- ===== src/Api/Events/Reuse.antt =====
-- Idempotency-Key, used again: from the requests to the answers.
use pulse_stream.Common.{
  ℕ, ◌≡◌, ◌≢◌, ◌⊎◌, inl, inr, refl, ap, ◌∙◌, sym, ◌↔◌, true, Bool-cases, Bytes, text_eq,
  text_eq_iff, length, Option, Result, ok, err,
}
use pulse_stream.Event.{EventId}
use pulse_stream.Event.Labels.{new_event_iff}
use pulse_stream.Idempotency.{fingerprint_input, compute}
use pulse_stream.Idempotency.Framing.{IsHashable}
use pulse_stream.Idempotency.Canonical.Normal.{SameValue}
use pulse_stream.Idempotency.Canonical.Scalars.{IsJson, IsJsonWriter}
use pulse_stream.Idempotency.Requests.{compute-eq_iff}
use pulse_stream.Store.Schema.{Table}
use pulse_stream.Store.Invariant.{Evolves}
use pulse_stream.Store.Admit.{AdmitIo, conflict, admit}
use pulse_stream.Store.Admit.Retry.{IsHealthy, retry_lem}
use pulse_stream.Api.Errors.{JsonRejection, idempotency_conflict}
use pulse_stream.Api.Events.{
  Platform, EventRequest, Admission, accepted, answer, prepare, submit, ingest,
}
use pulse_stream.Api.Events.Prepared.{prepare-IsPrepared, prepared_lem}
use pulse_stream.Api.Events.Answers.{ingest_ok}
use pulse_stream.Api.Events.Retries.{replayed-submit, submit-admit}

conflict-submit :
    (p : Platform) (io : AdmitIo) (now : ℕ) (a : Admission) (t : Table)
    → admit io now a.event a.key a.fingerprint t ≡ (ok conflict, t)
    → submit p io now (ok a) t ≡ (err idempotency_conflict, t)
unfolding submit answer
conflict-submit p io now a t h = rw h refl

-- What the fingerprint is computed from is known, and SHA-256 tells the two inputs apart.
pub record AreComparable (p : Platform) (a b : Admission) : Type 0 where
  pub first_json : IsJson a.event.payload
  pub second_json : IsJson b.event.payload
  pub first_hashable : IsHashable p.to_writer a.event.source a.event.event_type a.event.payload
  pub second_hashable : IsHashable p.to_writer b.event.source b.event.event_type b.event.payload
  pub no_collision :
      p.sha256 (fingerprint_input p.to_writer a.event.source a.event.event_type a.event.payload)
        ≡ p.sha256 (fingerprint_input p.to_writer b.event.source b.event.event_type b.event.payload)
      → fingerprint_input p.to_writer a.event.source a.event.event_type a.event.payload
        ≡ fingerprint_input p.to_writer b.event.source b.event.event_type b.event.payload

-- The same event type, and the same payload up to the order of entries.
abbrev pub SameRequest : Admission → Admission → Type 0
SameRequest a b =
    (a.event.event_type ≡ b.event.event_type) × SameValue a.event.payload b.event.payload

module _ (p : Platform) (a b : Admission) (w : IsJsonWriter p.to_writer) (c : AreComparable p a b)
    (same_source : b.event.source ≡ a.event.source)
    (first_print : a.fingerprint
      ≡ compute p.to_writer p.sha256 a.event.source a.event.event_type a.event.payload)
    (second_print : b.fingerprint
      ≡ compute p.to_writer p.sha256 b.event.source b.event.event_type b.event.payload) where
  same_print : (text_eq a.fingerprint.bytes b.fingerprint.bytes ≡ true) ↔ SameRequest a b
  same_print =
      let judged =
        compute-eq_iff p.to_writer p.sha256 a.event.source b.event.source a.event.event_type
          b.event.event_type a.event.payload b.event.payload w c.first_json c.second_json
          c.first_hashable c.second_hashable c.no_collision in
      let texts = text_eq_iff a.fingerprint.bytes b.fingerprint.bytes in
      (
        λ h.
            let prints : a.fingerprint ≡ b.fingerprint =
              ap (λ x. record { bytes = x }) (texts.0 h) in
            let (_, types, payloads) = judged.0 (sym first_print ∙ prints ∙ second_print) in
            (types, payloads),
        λ (types, payloads). texts.1 (
            ap (λ f. f.bytes)
              (first_print ∙ judged.1 (sym same_source, types, payloads) ∙ sym second_print)),
      )

-- Two requests with the same key and the same source. The first call of `ingest` wrote to the
-- table, digests have 32 bytes, scalars are written so that they can be read back, the inputs of
-- the two fingerprints are shorter than 2^64 bytes in each part and SHA-256 tells them apart. In
-- any table that the written one evolves to and with a healthy database, the second call writes
-- nothing; if the type is the same and the payload is the same up to the order of entries, it is
-- answered with 202, the first event's identity and the mark of a replay, and if not, it is
-- refused with a conflict of the key.
pub key_reuse :
    (p : Platform) (fresh : EventId) (clock : ℕ) (io : AdmitIo) (now : ℕ) (header : Option Bytes)
    (body : Result EventRequest JsonRejection) (t : Table) (a : Admission) (fresh' : EventId)
    (clock' : ℕ) (io' : AdmitIo) (now' : ℕ) (body' : Result EventRequest JsonRejection) (u : Table)
    (b : Admission)
    → ((x : Bytes) → length (p.sha256 x) ≡ 32)
    → IsJsonWriter p.to_writer
    → prepare p fresh clock header body ≡ ok a
    → prepare p fresh' clock' header body' ≡ ok b
    → b.event.source ≡ a.event.source
    → AreComparable p a b
    → (ingest p fresh clock io now header body t).1 ≢ t
    → Evolves (ingest p fresh clock io now header body t).1 u
    → IsHealthy io'
    → (SameRequest a b
        × (ingest p fresh' clock' io' now' header body' u ≡ (ok (accepted p fresh true), u)))
      ⊎ ((SameRequest a b → ⊥)
          × (ingest p fresh' clock' io' now' header body' u ≡ (err idempotency_conflict, u)))
key_reuse p fresh clock io now header body t a fresh' clock' io' now' body' u b digest w q q'
      same_source c written v healthy =
    let i = prepare-IsPrepared p fresh clock header body a q in
    let j = prepare-IsPrepared p fresh' clock' header body' b q' in
    let (same_id, key, size, _, _) = prepared_lem p digest i in
    let (_, _, size', _, _) = prepared_lem p digest j in
    let same_key : b.key ≡ a.key = cc (i.keyed, j.keyed) in
    let r = j.request in
    let (valid, _, _, _, _, _) =
      (new_event_iff fresh' clock' r.source r.event_type r.payload b.event).0 j.built in
    let first =
      ap (λ x. x.1) (ingest_ok p fresh clock io now header body t a q)
      ∙ submit-admit p io now a t in
    let again = ingest_ok p fresh' clock' io' now' header body' u b q' in
    let answered =
      retry_lem io now a.event a.key a.fingerprint t (rw first at written) io' now' b.event
        b.fingerprint u (rw first at v) healthy valid key size' (ap (λ s. s.text) same_source) in
    let judged = same_print p a b w c same_source i.hashed j.hashed in
    elim (Bool-cases (text_eq a.fingerprint.bytes b.fingerprint.bytes)) [
      | inl e ↦ inl (
        judged.0 e,
        again
            ∙ replayed-submit p io' now' b u fresh (rw same_key (answered ∙ rw (e, same_id) refl)),
      )
      | inr e ↦ inr (
        λ same. cc (judged.1 same, e),
        again ∙ conflict-submit p io' now' b u (rw same_key (answered ∙ rw e refl)),
      )
    ]
