-- ===== src/Api/Events/Retries.antt =====
-- Retries of a request, and lookups of an accepted event.
use pulse_stream.Common.{
  ℕ, true, text_eq, if◌then◌else◌, ◌≡◌, ◌≢◌, refl, ap, ◌∙◌, inl, inr, Bytes, Text, text_eq_refl,
  length, Option, none, some, Result, ok, Result-cases,
}
use pulse_stream.Event.{EventId, UuidText, parse_event_id, as_api_str}
use pulse_stream.Idempotency.{RequestFingerprint}
use pulse_stream.Store.Schema.{Table}
use pulse_stream.Store.Invariant.{Evolves}
use pulse_stream.Store.Admit.{AdmitIo, replayed, conflict, admit}
use pulse_stream.Store.Admit.Retry.{IsHealthy, retry_lem, committed_visible}
use pulse_stream.Store.Lookup.{EventRecord, get}
use pulse_stream.Api.Errors.{JsonRejection}
use pulse_stream.Api.Response.{EventStatusResponse, status_body}
use pulse_stream.Api.Events.{
  Platform, EventRequest, Admission, accepted, answer, prepare, submit, ingest, find_id, found,
  get_event, status_response,
}
use pulse_stream.Api.Events.Prepared.{prepare_again, prepare-IsPrepared, prepared_lem}
use pulse_stream.Api.Events.Answers.{ingest_ok, ingest_err}

pub replayed-submit :
    (p : Platform) (io : AdmitIo) (now : ℕ) (a : Admission) (t : Table) (id : EventId)
    → admit io now a.event a.key a.fingerprint t ≡ (ok (replayed id), t)
    → submit p io now (ok a) t ≡ (ok (accepted p id true), t)
unfolding submit answer
replayed-submit p io now a t id h = rw h refl

same_request :
    (f g : RequestFingerprint) (first fresh : EventId)
    → g ≡ f
    → first ≡ fresh
    → (if text_eq f.bytes g.bytes then replayed first else conflict) ≡ replayed fresh
same_request f g first fresh same_print same_id =
    rw (same_print, text_eq_refl f.bytes, same_id) refl

abbrev pub status_of : Platform → EventRecord → EventStatusResponse
status_of p r = record {
  event_id = p.uuid_text.display r.event_id.uuid;
  source = r.source;
  event_type = r.event_type;
  status = as_api_str r.status;
  accepted_at = r.accepted_at;
  processed_at = r.processed_at;
}

parse_event_id_lem :
    (u : UuidText) (path : Text) (id : EventId)
    → u.try_parse path ≡ some id.uuid
    → parse_event_id u path ≡ some id
unfolding parse_event_id
parse_event_id_lem u path id h = rw (parse_event_id, h) refl

pub get_event_found :
    (p : Platform) (path : Text) (id : EventId) (u : Table) (r : EventRecord)
    → p.uuid_text.try_parse path ≡ some id.uuid
    → get p.to_char none id u ≡ ok (some r)
    → get_event p none path u
      ≡ ok (record {
        status = 200;
        replayed = none;
        retry_after = none;
        body = status_body (status_of p r);
      })
unfolding get_event find_id found status_response
get_event_found p path id u r parses g = rw (parse_event_id_lem p.uuid_text path id parses, g) refl

pub submit-admit :
    (p : Platform) (io : AdmitIo) (now : ℕ) (a : Admission) (t : Table)
    → (submit p io now (ok a) t).1 ≡ (admit io now a.event a.key a.fingerprint t).1
unfolding submit
submit-admit p io now a t = refl

-- A request whose call of `ingest` wrote to the table, whatever its client was told.
module _ (p : Platform) (fresh : EventId) (clock : ℕ) (io : AdmitIo) (now : ℕ)
    (header : Option Bytes) (body : Result EventRequest JsonRejection) (t : Table)
    (digest : (b : Bytes) → length (p.sha256 b) ≡ 32)
    (written : (ingest p fresh clock io now header body t).1 ≢ t) where
  written-prepared : (a : Admission) × (prepare p fresh clock header body ≡ ok a)
  written-prepared = elim (Result-cases (prepare p fresh clock header body)) [
    | inl x ↦ x
    | inr (e, q) ↦
        absurd (written (ap (λ x. x.1) (ingest_err p fresh clock io now header body t e q)))
  ]

  -- A request whose call of `ingest` wrote to the table, whatever its client was told, with
  -- digests of 32 bytes: sent again to a healthy database, in any table that the written one
  -- evolves to, it is answered with 202, the first event's identity and the mark of a replay, and
  -- it writes nothing.
  pub ingest_retry :
      (fresh' : EventId) (clock' : ℕ) (io' : AdmitIo) (now' : ℕ) (u : Table)
      → Evolves (ingest p fresh clock io now header body t).1 u
      → IsHealthy io'
      → ingest p fresh' clock' io' now' header body u ≡ (ok (accepted p fresh true), u)
  ingest_retry fresh' clock' io' now' u v healthy =
      let (a, q) = written-prepared in
      let (b, q', same_key, same_source, same_print, valid) =
        prepare_again p fresh clock header body a fresh' clock' q in
      let (same_id, key, size, same_label, same_type) =
        prepared_lem p digest (prepare-IsPrepared p fresh clock header body a q) in
      let first =
        ap (λ x. x.1) (ingest_ok p fresh clock io now header body t a q)
        ∙ submit-admit p io now a t in
      let again = ingest_ok p fresh' clock' io' now' header body u b q' in
      let answered =
        retry_lem io now a.event a.key a.fingerprint t (rw first at written) io' now' b.event
          b.fingerprint u (rw first at v) healthy valid key (rw same_print size) same_source in
      let judged = same_request a.fingerprint b.fingerprint a.event.id fresh same_print same_id in
      again
      ∙ replayed-submit p io' now' b u fresh (rw same_key (answered ∙ ap (λ o. (ok o, u)) judged))

  -- A request whose call of `ingest` wrote to the table, with digests of 32 bytes: in any table
  -- that the written one evolves to, a lookup by a text of the event's ID is answered with 200,
  -- the ID, the source and the type that the request gave, and the time of the call.
  pub ingest_visible :
      (path : Text) (u : Table)
      → p.uuid_text.try_parse path ≡ some fresh.uuid
      → Evolves (ingest p fresh clock io now header body t).1 u
      → (request : EventRequest) × (s : EventStatusResponse) × (body ≡ ok request)
        × (get_event p none path u
            ≡ ok (record {
              status = 200;
              replayed = none;
              retry_after = none;
              body = status_body s;
            }))
        × (s.event_id ≡ p.uuid_text.display fresh.uuid)
        × (s.source ≡ request.source)
        × (s.event_type ≡ request.event_type)
        × (s.accepted_at ≡ p.to_char now)
  ingest_visible path u parses v =
      let (a, q) = written-prepared in
      let prepared = prepare-IsPrepared p fresh clock header body a q in
      let (same_id, key, size, same_source, same_type) = prepared_lem p digest prepared in
      let first =
        ap (λ x. x.1) (ingest_ok p fresh clock io now header body t a q)
        ∙ submit-admit p io now a t in
      let (r, found, i, s, e, c) =
        committed_visible io now a.event a.key a.fingerprint t (rw first at written) p.to_char u
          (rw first at v) in
      let got = get_event_found p path fresh u r parses (rw same_id at found) in
      (
        prepared.request,
        status_of p r,
        prepared.decoded,
        got,
        ap (λ x. p.uuid_text.display x.uuid) (i ∙ same_id),
        s ∙ same_source,
        e ∙ same_type,
        c,
      )
