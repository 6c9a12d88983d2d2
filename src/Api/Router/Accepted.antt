-- ===== src/Api/Router/Accepted.antt =====
-- What an acceptance by the server means.
use pulse_stream.Common.{
  ℕ, Text, ◌≤◌, ◌≡◌, ◌≢◌, inl, inr, refl, Bool, Option, some, Option-cases, Result, ok, err,
  Result-cases, arith,
}
use pulse_stream.Event.{EventId}
use pulse_stream.Store.Errors.{SqlxError, StoreError}
use pulse_stream.Store.Schema.{Table}
use pulse_stream.Api.Health.{ready}
use pulse_stream.Api.Errors.{ApiError}
use pulse_stream.Api.Response.{Response, into_response, error_response}
use pulse_stream.Api.Events.{
  Platform, Admission, max_body_bytes, accepted, prepare, found, status_response, get_event,
}
use pulse_stream.Api.Events.Answers.{IsStored, ingest-accepted}
use pulse_stream.Api.Router.Writes.{IsRouting, ingest_route, ingested}
use pulse_stream.Api.Router.{
  Handler, health_live, health_ready, events_ingest, events_get, Route, routes, Axum, Answer, alive,
  readiness, response, refused, Moment, look_up, run_handler, serve,
}

-- The status of the response.
abbrev pub status_of : Answer → ℕ
status_of (alive l) = 200
status_of (readiness r) = r.0
status_of (response r) = r.status
status_of (refused status) = status

error_response-status : (e : ApiError) → 400 ≤ (error_response e).status
unfolding error_response
error_response-status e = ground arith

pub not_202 : (e : ApiError) → (into_response (err e)).status ≢ 202
unfolding into_response
not_202 e h = omega (arith, error_response-status e, h)

ready-status : (pinged : Option (Result (Unit {0}) StoreError)) → (ready pinged).0 ≢ 202
unfolding ready
ready-status pinged h = ground arith

get_event-ok :
    (p : Platform) (io : Option SqlxError) (path : Text) (t : Table) (r : Response)
    → get_event p io path t ≡ ok r
    → r.status ≡ 200
unfolding get_event found status_response
get_event-ok p io path t r h = ground arith

get_event-status :
    (p : Platform) (io : Option SqlxError) (path : Text) (t : Table)
    → (into_response (get_event p io path t)).status ≢ 202
unfolding into_response
get_event-status p io path t h = elim (Result-cases (get_event p io path t)) [
  | inl (r, e) ↦ omega (arith, get_event-ok p io path t r e, rw e at h)
  | inr (e, k) ↦ omega (arith, error_response-status e, rw k at h)
]

module _ {Request : Type 0} (ax : Axum Request) (p : Platform) (m : Moment) (q : Request)
    (t : Table) (undecoded : (status : ℕ) → ax.path_text q ≡ err status → 400 ≤ status) where
  run_handler-accepted :
      (h : Handler) (limit : Option ℕ)
      → status_of (run_handler ax p m q h limit t).0 ≡ 202
      → (h ≡ events_ingest) × ((into_response (ingested ax p m q t limit).0).status ≡ 202)
  unfolding run_handler look_up
  run_handler-accepted health_live limit w = absurd (omega (arith, w))
  run_handler-accepted health_ready limit w = absurd (ready-status m.pinged w)
  run_handler-accepted events_ingest limit w = (refl, w)
  run_handler-accepted events_get limit w = elim (Result-cases (ax.path_text q)) [
    | inl (path, e) ↦ absurd (get_event-status p m.get_io path t (rw e at w))
    | inr (status, e) ↦ absurd (omega (arith, undecoded status e, rw e at w))
  ]

  pub serve-accepted :
      400 ≤ ax.fallback q
      → status_of (serve ax p m q t).0 ≡ 202
      → (r : Route) × (ax.choose routes q ≡ some r)
        × (r.handler ≡ events_ingest)
        × ((into_response (ingested ax p m q t r.limit).0).status ≡ 202)
        × (serve ax p m q t ≡ (
          response (into_response (ingested ax p m q t r.limit).0),
          (ingested ax p m q t r.limit).1,
        ))
  unfolding serve run_handler
  serve-accepted unrouted w = elim (Option-cases (ax.choose routes q)) [
    | inl e ↦ absurd (omega (arith, unrouted, rw (serve, e) at w))
    | inr (r, e) ↦
        let (h, k) = run_handler-accepted r.handler r.limit (rw (serve, e) at w) in
        (r, e, h, k, rw (serve, e, h) refl)
  ]

module _ {Request : Type 0} (ax : Axum Request) (is_post : Request → Type 0)
    (body_length : Request → ℕ) (routing : IsRouting ax is_post body_length) (p : Platform)
    (m : Moment) (q : Request) (t : Table) where
  -- With what axum documents: an answer of the server with the status 202 says that a row stands for
  -- the request. The row has the scoped key and the fingerprint of the admission that `prepare`
  -- makes from the header and the body, and the answer is that of `ingest` with the row's ID.
  pub accepted-IsStored :
      status_of (serve ax p m q t).0 ≡ 202
      → (a : Admission) × (id : EventId) × (replay : Bool) × (prepare p m.fresh m.clock
            (ax.header q)
            (ax.json (some max_body_bytes) q)
          ≡ ok a)
        × ((serve ax p m q t).0 ≡ response (accepted p id replay))
        × IsStored a id (serve ax p m q t).1
  unfolding into_response
  accepted-IsStored w =
      let (r, chosen, handler, answered, same) =
        serve-accepted ax p m q t (routing.undecoded q) (routing.unrouted q) w in
      let (method, limit) = ingest_route r (routing.listed routes q r chosen) handler in
      let all : serve ax p m q t ≡ (
        response (into_response (ingested ax p m q t (some max_body_bytes)).0),
        (ingested ax p m q t (some max_body_bytes)).1,
      ) =
        rw limit at same in
      let fine : (into_response (ingested ax p m q t (some max_body_bytes)).0).status ≡ 202 =
        rw limit at answered in
      elim (Result-cases (ingested ax p m q t (some max_body_bytes)).0) [
        | inr (e, k) ↦ absurd (not_202 e (rw k at fine))
        | inl (z, k) ↦
            let (a, id, replay, prepared, is_accepted, stored) =
              ingest-accepted p m.fresh m.clock m.admit_io m.now (ax.header q)
                (ax.json (some max_body_bytes) q) t k in
            (a, id, replay, prepared, rw (all, k, is_accepted) refl, rw all stored)
      ]
