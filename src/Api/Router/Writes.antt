-- ===== src/Api/Router/Writes.antt =====
-- Which requests write.
use pulse_stream.Common.{
  ℕ, ◌≤◌, ◌≡◌, ◌≢◌, inl, inr, refl, ap, In, Option, some, Option-cases, Result, ok, err,
  Result-cases, arith, List,
}
use pulse_stream.Store.Schema.{Table}
use pulse_stream.Api.Errors.{ApiError}
use pulse_stream.Api.Response.{Response}
use pulse_stream.Api.Events.{Platform, EventRequest, Admission, max_body_bytes, prepare, ingest}
use pulse_stream.Api.Events.Prepared.{prepare-IsPrepared}
use pulse_stream.Api.Events.Answers.{ingest_err}
use pulse_stream.Api.Router.{
  Handler, health_live, health_ready, events_ingest, events_get, Route, MethodFilter, routes, Axum,
  Moment, run_handler, serve,
}

-- What axum documents: the chosen route is one of the router's, a route made by `post` serves the
-- method POST only, a body over the limit of its route is rejected, and axum's own answers are errors.
pub record IsRouting {Request : Type 0} (ax : Axum Request) (is_post : Request → Type 0)
    (body_length : Request → ℕ) : Type 0 where
  pub listed : (rs : List Route) (q : Request) (r : Route) → ax.choose rs q ≡ some r → In r rs
  pub posted :
      (rs : List Route) (q : Request) (r : Route)
      → ax.choose rs q ≡ some r
      → r.method ≡ MethodFilter.post
      → is_post q
  pub limited :
      (n : ℕ) (q : Request) (e : EventRequest) → ax.json (some n) q ≡ ok e → body_length q ≤ n
  pub unrouted : (q : Request) → 400 ≤ ax.fallback q
  pub undecoded : (q : Request) (status : ℕ) → ax.path_text q ≡ err status → 400 ≤ status

-- The only route whose handler is `ingest`.
pub ingest_route :
    (r : Route)
    → In r routes
    → r.handler ≡ events_ingest
    → (r.method ≡ MethodFilter.post) × (r.limit ≡ some max_body_bytes)
ingest_route r h e = ground arith

module _ {Request : Type 0} (ax : Axum Request) (p : Platform) (m : Moment) (q : Request)
    (t : Table) where
  abbrev pub ingested : Option ℕ → Result Response ApiError × Table
  ingested limit = ingest p m.fresh m.clock m.admit_io m.now (ax.header q) (ax.json limit q) t

  run_handler-writes :
      (h : Handler) (limit : Option ℕ)
      → (run_handler ax p m q h limit t).1 ≢ t
      → (h ≡ events_ingest) × ((ingested limit).1 ≢ t)
  unfolding run_handler
  run_handler-writes health_live limit w = absurd (w refl)
  run_handler-writes health_ready limit w = absurd (w refl)
  run_handler-writes events_ingest limit w = (refl, w)
  run_handler-writes events_get limit w = absurd (w refl)

  pub serve-writes :
      (serve ax p m q t).1 ≢ t
      → (r : Route) × (ax.choose routes q ≡ some r)
        × (r.handler ≡ events_ingest)
        × ((ingested r.limit).1 ≢ t)
  unfolding serve
  serve-writes w = elim (Option-cases (ax.choose routes q)) [
    | inl e ↦ absurd (w (rw (serve, e) refl))
    | inr (r, e) ↦
        let (h, k) = run_handler-writes r.handler r.limit (rw (serve, e) at w) in (r, e, h, k)
  ]

  ingest-prepares :
      (limit : Option ℕ)
      → (ingested limit).1 ≢ t
      → (a : Admission) × (prepare p m.fresh m.clock (ax.header q) (ax.json limit q) ≡ ok a)
  ingest-prepares limit w =
      elim (Result-cases (prepare p m.fresh m.clock (ax.header q) (ax.json limit q))) [
        | inl x ↦ x
        | inr (e, k) ↦ absurd (
            w (
              ap (λ x. x.1)
                (ingest_err p m.fresh m.clock m.admit_io m.now (ax.header q) (ax.json limit q) t e
                  k)))
      ]

module _ {Request : Type 0} (ax : Axum Request) (is_post : Request → Type 0)
    (body_length : Request → ℕ) (routing : IsRouting ax is_post body_length) (p : Platform)
    (m : Moment) (q : Request) (t : Table) where
  -- With what axum documents about routes and body limits: a request that changes the table is a POST, its body
  -- is a JSON event request of at most 64 KiB, and its key and event are those that `prepare` accepts.
  pub only_ingest_writes :
      (serve ax p m q t).1 ≢ t
      → is_post q
        × (body_length q ≤ 65536)
        × ((request : EventRequest) × (ax.json (some max_body_bytes) q ≡ ok request))
        × ((a : Admission) × (prepare p m.fresh m.clock
                (ax.header q)
                (ax.json (some max_body_bytes) q)
              ≡ ok a))
  only_ingest_writes w =
      let (r, chosen, handler, written) = serve-writes ax p m q t w in
      let (method, limit) = ingest_route r (routing.listed routes q r chosen) handler in
      let (a, prepared) = ingest-prepares ax p m q t r.limit written in
      let ready : prepare p m.fresh m.clock (ax.header q) (ax.json (some max_body_bytes) q) ≡ ok a =
        rw limit at prepared in
      let i = prepare-IsPrepared p m.fresh m.clock (ax.header q) _ a ready in
      (
        routing.posted routes q r chosen method,
        routing.limited max_body_bytes q i.request i.decoded,
        (i.request, i.decoded),
        (a, ready),
      )
