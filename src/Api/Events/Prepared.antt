-- ===== src/Api/Events/Prepared.antt =====
-- What a request has come to when `ingest` calls the store.
use pulse_stream.Common.{
  ℕ, ◌≡◌, refl, ap, ◌∙◌, Bytes, length, Option, none, some, Option-cases, inl, inr, Result, ok, err,
  Result-cases, arith,
}
use pulse_stream.Event.{Event, EventId, new_event}
use pulse_stream.Event.Labels.{IsValidEvent, new_event_iff}
use pulse_stream.Idempotency.{IdempotencyKey, parse_key, compute}
use pulse_stream.Idempotency.Keys.{IsKey, parse_key_iff}
use pulse_stream.Api.Errors.{JsonRejection}
use pulse_stream.Api.Events.{Platform, EventRequest, Admission, idempotency_key, prepare}

module _ (p : Platform) where
  idempotency_key-IsKey :
      (header : Option Bytes) {key : IdempotencyKey}
      → idempotency_key p header ≡ ok key
      → IsKey key.text
  unfolding idempotency_key
  idempotency_key-IsKey none h = cc
  idempotency_key-IsKey (some value) {key} h = elim (Option-cases (p.to_str value)) [
    | inl e ↦ ground arith
    | inr (text, e) ↦
        let parsed : parse_key text ≡ ok key = ground arith in
        let (k, same) = (parse_key_iff text key).0 parsed in rw same k
  ]

  -- What `prepare` has found out when it succeeds.
  pub record IsPrepared (fresh : EventId) (clock : ℕ) (header : Option Bytes)
      (body : Result EventRequest JsonRejection) (a : Admission) : Type 0 where
    pub keyed : idempotency_key p header ≡ ok a.key
    pub request : EventRequest
    pub decoded : body ≡ ok request
    pub built : new_event fresh clock request.source request.event_type request.payload ≡ ok a.event
    pub hashed :
        a.fingerprint
        ≡ compute p.to_writer p.sha256 a.event.source a.event.event_type a.event.payload

  abbrev pub admission_of : Event → IdempotencyKey → Admission
  admission_of e k = record {
    event = e;
    key = k;
    fingerprint = compute p.to_writer p.sha256 e.source e.event_type e.payload;
  }

  pub prepare_built :
      (fresh : EventId) (clock : ℕ) (header : Option Bytes) (r : EventRequest) (k : IdempotencyKey)
      (e : Event)
      → idempotency_key p header ≡ ok k
      → new_event fresh clock r.source r.event_type r.payload ≡ ok e
      → prepare p fresh clock header (ok r) ≡ ok (admission_of e k)
  unfolding prepare
  prepare_built fresh clock header r k e q n = rw (q, n) refl

  pub prepare-IsPrepared :
      (fresh : EventId) (clock : ℕ) (header : Option Bytes)
      (body : Result EventRequest JsonRejection) (a : Admission)
      → prepare p fresh clock header body ≡ ok a
      → IsPrepared fresh clock header body a
  unfolding prepare
  prepare-IsPrepared fresh clock header (err e) a h =
      elim (Result-cases (idempotency_key p header)) [
        | inl (k, q) ↦ ground arith
        | inr (f, q) ↦ ground arith
      ]
  prepare-IsPrepared fresh clock header (ok r) a h =
      elim (Result-cases (idempotency_key p header)) [
        | inl (k, q) ↦ elim (Result-cases (new_event fresh clock r.source r.event_type r.payload)) [
          | inl (e, n) ↦
              let same : a ≡ admission_of e k =
                cc (h, prepare_built fresh clock header r k e q n) in
              record {
                keyed = cc (q, same);
                request = r;
                decoded = refl;
                built = cc (n, same);
                hashed = cc same;
              }
          | inr (f, n) ↦ ground arith
        ]
        | inr (f, q) ↦ ground arith
      ]

  -- The same request prepared again: the key, the source and the fingerprint are the same.
  pub prepare_again :
      (fresh : EventId) (clock : ℕ) (header : Option Bytes)
      (body : Result EventRequest JsonRejection) (a : Admission) (fresh' : EventId) (clock' : ℕ)
      → prepare p fresh clock header body ≡ ok a
      → (b : Admission) × (prepare p fresh' clock' header body ≡ ok b)
        × (b.key ≡ a.key)
        × (b.event.source.text ≡ a.event.source.text)
        × (b.fingerprint ≡ a.fingerprint)
        × IsValidEvent b.event
  prepare_again fresh clock header body a fresh' clock' h =
      let i = prepare-IsPrepared fresh clock header body a h in
      let r = i.request in
      let (v, i1, x1, x2, x3, x4) =
        (new_event_iff fresh clock r.source r.event_type r.payload a.event).0 i.built in
      let e : Event = record {
        id = fresh';
        source = a.event.source;
        event_type = a.event.event_type;
        payload = a.event.payload;
        accepted_at = clock';
      } in
      let w : IsValidEvent e = record {
        source_label = v.source_label;
        type_label = v.type_label;
        not_null = v.not_null;
      } in
      let n =
        (new_event_iff fresh' clock' r.source r.event_type r.payload e).1
          (w, refl, x1, x2, x3, refl) in
      (
        admission_of e a.key,
        rw i.decoded (prepare_built fresh' clock' header r a.key e i.keyed n),
        refl,
        refl,
        cc i.hashed,
        w,
      )

  pub prepared_lem :
      {fresh : EventId} {clock : ℕ} {header : Option Bytes}
      {body : Result EventRequest JsonRejection} {a : Admission}
      → ((b : Bytes) → length (p.sha256 b) ≡ 32)
      → (i : IsPrepared fresh clock header body a)
      → (a.event.id ≡ fresh)
        × IsKey a.key.text
        × (length a.fingerprint.bytes ≡ 32)
        × (a.event.source.text ≡ i.request.source)
        × (a.event.event_type.text ≡ i.request.event_type)
  unfolding compute
  prepared_lem {fresh} {clock} {header} {body} {a} digest i =
      let r = i.request in
      let (v, x, s, t, y, z) =
        (new_event_iff fresh clock r.source r.event_type r.payload a.event).0 i.built in
      (x, idempotency_key-IsKey header i.keyed, ap (λ f. length f.bytes) i.hashed ∙ digest _, s, t)
