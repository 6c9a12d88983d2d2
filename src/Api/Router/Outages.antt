-- ===== src/Api/Router/Outages.antt =====
-- What the server answers while the database is out of reach.
use pulse_stream.Common.{
  ◌≡◌, ◌≢◌, refl, ap, ◌∙◌, inl, inr, Option, Option-cases, some, Result-cases, ok, err, ℕ,
}
use pulse_stream.Store.Errors.{SqlxError, from_sqlx}
use pulse_stream.Store.Schema.{Table}
use pulse_stream.Store.Admit.{admit}
use pulse_stream.Api.Errors.{ApiError}
use pulse_stream.Api.Events.{Platform, Admission, store_error, prepare, submit}
use pulse_stream.Api.Events.Answers.{ingest_ok, ingest_err}
use pulse_stream.Api.Router.{
  Handler, health_live, health_ready, events_ingest, events_get, routes, Axum, Moment, run_handler,
  serve,
}
use pulse_stream.Api.Router.Writes.{IsRouting, ingested}
use pulse_stream.Api.Router.Accepted.{status_of, serve-accepted, not_202}

module _ (p : Platform) (m : Moment) (f : SqlxError) (out : m.admit_io.begin ≡ some f)
    (t : Table) where
  submit-out :
      (a : Admission) → submit p m.admit_io m.now (ok a) t ≡ (err (store_error (from_sqlx f)), t)
  unfolding submit admit
  submit-out a = rw (submit, admit, out) refl

  ingested-out :
      {Request : Type 0} (ax : Axum Request) (q : Request) (limit : Option ℕ)
      → (e : ApiError) × (ingested ax p m q t limit ≡ (err e, t))
  ingested-out ax q limit =
      elim (Result-cases (prepare p m.fresh m.clock (ax.header q) (ax.json limit q))) [
        | inl (a, k) ↦ (
          store_error (from_sqlx f),
          ingest_ok p m.fresh m.clock m.admit_io m.now (ax.header q) (ax.json limit q) t a k
              ∙ submit-out a,
        )
        | inr (e, k) ↦
            (e, ingest_err p m.fresh m.clock m.admit_io m.now (ax.header q) (ax.json limit q) t e k)
      ]

module _ {Request : Type 0} (ax : Axum Request) (p : Platform) (m : Moment) (q : Request)
    (t : Table) (f : SqlxError) (out : m.admit_io.begin ≡ some f) where
  run_handler-out : (h : Handler) (limit : Option ℕ) → (run_handler ax p m q h limit t).1 ≡ t
  unfolding run_handler
  run_handler-out health_live limit = refl
  run_handler-out health_ready limit = refl
  run_handler-out events_ingest limit = ap (λ x. x.1) (ingested-out p m f out t ax q limit).1
  run_handler-out events_get limit = refl

  serve-out : (serve ax p m q t).1 ≡ t
  unfolding serve
  serve-out = elim (Option-cases (ax.choose routes q)) [
    | inl e ↦ rw (serve, e) refl
    | inr (r, e) ↦ rw (serve, e) (run_handler-out r.handler r.limit)
  ]

module _ {Request : Type 0} (ax : Axum Request) (is_post : Request → Type 0)
    (body_length : Request → ℕ) (routing : IsRouting ax is_post body_length) (p : Platform)
    (m : Moment) (q : Request) (t : Table) where
  -- With what axum documents: while no transaction can be begun, whatever the reason, no request
  -- changes the table and none is answered with 202.
  pub outage_accepts_nothing :
      (f : SqlxError)
      → m.admit_io.begin ≡ some f
      → (status_of (serve ax p m q t).0 ≢ 202) × ((serve ax p m q t).1 ≡ t)
  outage_accepts_nothing f out = (
    λ w.
        let (r, chosen, handler, answered, same) =
          serve-accepted ax p m q t (routing.undecoded q) (routing.unrouted q) w in
        let (e, k) = ingested-out p m f out t ax q r.limit in
        not_202 e (rw (ap (λ x. x.0) k) at answered),
    serve-out ax p m q t f out,
  )
