-- ===== src/Api/Events/Answers.antt =====
-- What the answers of `ingest` say about the table.
use pulse_stream.Common.{
  ℕ, ◌≡◌, ◌≢◌, ◌≤◌, ◌⊎◌, ◌↔◌, inl, inr, refl, ap, Bool-cases, ◌∙◌, Bool, true, false, Bytes,
  text_eq_refl, text_eq_iff, Option, none, some, Option-cases, Result, ok, err, Result-cases, arith,
  [], ◌∷◌, ◌++◌,
}
use pulse_stream.Event.{EventId}
use pulse_stream.Store.Errors.{StoreError, is_unavailable, lost, SqlxError}
use pulse_stream.Store.Schema.{Row, Table, find_by_key, new_row}
use pulse_stream.Store.Invariant.Appends.{find_by_key-append}
use pulse_stream.Store.Admit.{AdmitIo, created, replayed, conflict, admit}
use pulse_stream.Store.Admit.Ledger.{admit_failure}
use pulse_stream.Api.Errors.{
  ApiError, JsonRejection, invalid_event, payload_too_large, unsupported_media_type,
  idempotency_key_required, idempotency_key_invalid, idempotency_conflict, invalid_event_id,
  event_not_found, persistence_unavailable, internal,
}
use pulse_stream.Api.Response.{Response, error_response}
use pulse_stream.Api.Events.{
  Platform, EventRequest, Admission, store_error, accepted, answer, prepare, submit, ingest,
}

-- The row that an admission stands for.
pub record IsStored (a : Admission) (id : EventId) (t : Table) : Type 0 where
  pub row : Row
  pub found : find_by_key a.event.source.text a.key.text t ≡ some row
  pub same_id : row.event_id ≡ id.uuid
  pub same_request : row.request_fingerprint ≡ a.fingerprint.bytes

store_error-status : (e : StoreError) → 500 ≤ (error_response (store_error e)).status
unfolding store_error error_response
store_error-status e = elim (Bool-cases (is_unavailable e)) [
  | inl h ↦ rw h (omega arith)
  | inr h ↦ rw h (omega arith)
]

module _ (io : AdmitIo) (now : ℕ) (a : Admission) (t : Table) where
  created-IsStored :
      {id : EventId}
      → (admit io now a.event a.key a.fingerprint t).0 ≡ ok (created id)
      → (id ≡ a.event.id)
        × ((admit io now a.event a.key a.fingerprint t).1
            ≡ t ++ new_row now a.event a.key a.fingerprint ∷ [])
        × (find_by_key a.event.source.text a.key.text t ≡ none)
  unfolding admit
  created-IsStored h = ground arith

  replayed-IsStored :
      {id : EventId}
      → (admit io now a.event a.key a.fingerprint t).0 ≡ ok (replayed id)
      → IsStored a id (admit io now a.event a.key a.fingerprint t).1
  unfolding admit
  replayed-IsStored h = elim (Option-cases (find_by_key a.event.source.text a.key.text t)) [
    | inl e ↦ ground arith
    | inr (r, e) ↦ record {
      row = r;
      found = ground arith;
      same_id = ground arith;
      same_request = ground (arith, text_eq_iff r.request_fingerprint a.fingerprint.bytes);
    }
  ]

  new_row-IsStored :
      find_by_key a.event.source.text a.key.text t ≡ none
      → IsStored a a.event.id (t ++ new_row now a.event a.key a.fingerprint ∷ [])
  unfolding new_row find_by_key
  new_row-IsStored f = record {
    row = new_row now a.event a.key a.fingerprint;
    found =
        find_by_key-append a.event.source.text a.key.text t
          (new_row now a.event a.key a.fingerprint) f
        ∙ rw (text_eq_refl a.event.source.text, text_eq_refl a.key.text);
    same_id = refl;
    same_request = refl;
  }

  conflict-keeps :
      (admit io now a.event a.key a.fingerprint t).0 ≡ ok conflict
      → (admit io now a.event a.key a.fingerprint t).1 ≡ t
  unfolding admit
  conflict-keeps h = ground arith

  -- What the answer of the store becomes.
  submit_ok :
      (p : Platform) {r : Response}
      → (submit p io now (ok a) t).0 ≡ ok r
      → (id : EventId) × (replay : Bool) × (r ≡ accepted p id replay)
        × IsStored a id (submit p io now (ok a) t).1
  unfolding submit answer
  submit_ok p h = elim (Result-cases (admit io now a.event a.key a.fingerprint t).0) [
    | inr (e, q) ↦ ground arith
    | inl (created id, q) ↦
        let (same, added, none_before) = created-IsStored q in
        (id, false, ground arith, rw (added, same) (new_row-IsStored none_before))
    | inl (replayed id, q) ↦ (id, true, ground arith, replayed-IsStored q)
    | inl (conflict, q) ↦ ground arith
  ]

  submit_err :
      (p : Platform) {e : ApiError}
      → (submit p io now (ok a) t).0 ≡ err e
      → ((submit p io now (ok a) t).1 ≡ t)
        ⊎ ((500 ≤ (error_response e).status)
            × ((f : SqlxError) × (io.reply ≡ lost f)
                × ((submit p io now (ok a) t).1
                    ≡ t ++ new_row now a.event a.key a.fingerprint ∷ [])))
  unfolding submit answer
  submit_err p {e} h = elim (Result-cases (admit io now a.event a.key a.fingerprint t).0) [
    | inl (created id, q) ↦ ground arith
    | inl (replayed id, q) ↦ ground arith
    | inl (conflict, q) ↦ inl (conflict-keeps q)
    | inr (f, q) ↦
        let same : e ≡ store_error f = ground arith in
        elim (admit_failure io now a.event a.key a.fingerprint t "" q).0 [
          | inl k ↦ inl k
          | inr k ↦ inr (rw same (store_error-status f), k)
        ]
  ]

module _ (p : Platform) (fresh : EventId) (clock : ℕ) (io : AdmitIo) (now : ℕ)
    (header : Option Bytes) (body : Result EventRequest JsonRejection) (t : Table) where
  pub ingest_ok :
      (a : Admission)
      → prepare p fresh clock header body ≡ ok a
      → ingest p fresh clock io now header body t ≡ submit p io now (ok a) t
  unfolding ingest
  ingest_ok a q = ap (λ r. submit p io now r t) q

  pub ingest_err :
      (e : ApiError)
      → prepare p fresh clock header body ≡ err e
      → ingest p fresh clock io now header body t ≡ (err e, t)
  unfolding ingest submit
  ingest_err e q = ap (λ r. submit p io now r t) q

  -- `ingest` accepts an event only once a row stands for its request: the answer is 202 with the
  -- identity of that row, which has the scoped key and the fingerprint of the request.
  pub ingest-accepted :
      {r : Response}
      → (ingest p fresh clock io now header body t).0 ≡ ok r
      → (a : Admission) × (id : EventId) × (replay : Bool) × (prepare p fresh clock header body
          ≡ ok a)
        × (r ≡ accepted p id replay)
        × IsStored a id (ingest p fresh clock io now header body t).1
  ingest-accepted h = elim (Result-cases (prepare p fresh clock header body)) [
    | inr (e, q) ↦ cc (ingest_err e q, h)
    | inl (a, q) ↦
        let same = ingest_ok a q in
        let (id, replay, answered, stored) = submit_ok io now a t p (rw same at h) in
        (a, id, replay, q, answered, rw same stored)
  ]

  -- An error answer leaves the table as it was, unless the request was recorded and the reply of
  -- the commit was lost; then the status is 500 or more.
  pub ingest_failed :
      {e : ApiError}
      → (ingest p fresh clock io now header body t).0 ≡ err e
      → ((ingest p fresh clock io now header body t).1 ≡ t)
        ⊎ ((500 ≤ (error_response e).status)
            × ((f : SqlxError) × (a : Admission) × (io.reply ≡ lost f)
                × (prepare p fresh clock header body ≡ ok a)
                × ((ingest p fresh clock io now header body t).1
                    ≡ t ++ new_row now a.event a.key a.fingerprint ∷ [])))
  ingest_failed h = elim (Result-cases (prepare p fresh clock header body)) [
    | inr (e, q) ↦ inl (ap (λ x. x.1) (ingest_err e q))
    | inl (a, q) ↦
        let same = ingest_ok a q in
        elim (submit_err io now a t p (rw same at h)) [
          | inl k ↦ inl (rw same k)
          | inr (s, (f, l, k)) ↦ inr (s, (f, a, l, q, rw same k))
        ]
  ]

-- The Retry-After header is sent exactly with the status 503.
pub retry_after_iff :
    (e : ApiError) → ((error_response e).retry_after ≢ none) ↔ ((error_response e).status ≡ 503)
unfolding error_response
retry_after_iff (invalid_event m) = ((λ h. absurd (h refl)), (λ h. omega (arith, h)))
retry_after_iff payload_too_large = ((λ h. absurd (h refl)), (λ h. omega (arith, h)))
retry_after_iff unsupported_media_type = ((λ h. absurd (h refl)), (λ h. omega (arith, h)))
retry_after_iff idempotency_key_required = ((λ h. absurd (h refl)), (λ h. omega (arith, h)))
retry_after_iff idempotency_key_invalid = ((λ h. absurd (h refl)), (λ h. omega (arith, h)))
retry_after_iff idempotency_conflict = ((λ h. absurd (h refl)), (λ h. omega (arith, h)))
retry_after_iff invalid_event_id = ((λ h. absurd (h refl)), (λ h. omega (arith, h)))
retry_after_iff event_not_found = ((λ h. absurd (h refl)), (λ h. omega (arith, h)))
retry_after_iff persistence_unavailable = ((λ _. refl), (λ _. λ h. cc))
retry_after_iff internal = ((λ h. absurd (h refl)), (λ h. omega (arith, h)))
