-- ===== src/Api/Router.antt =====
-- crates/pulsestream-api/src/app.rs: the routes, and what the server does with a request. axum's
-- choice of a route, its extractors and its own answers are parameters.
pub mod Writes
pub mod Accepted
pub mod Outages
use pulse_stream.Common.{ℕ, Text, Bytes, String, Option, none, some, Result, ok, err, List, [], ◌∷◌}
use pulse_stream.Event.{EventId}
use pulse_stream.Store.Errors.{SqlxError, StoreError}
use pulse_stream.Store.Schema.{Table}
use pulse_stream.Store.Admit.{AdmitIo}
use pulse_stream.Api.Errors.{JsonRejection}
use pulse_stream.Api.Response.{Response, into_response}
use pulse_stream.Api.Health.{Liveness, Readiness, live, ready}
use pulse_stream.Api.Events.{Platform, EventRequest, max_body_bytes, ingest, get_event}

-- The functions that serve a route.
pub data Handler : Type 0 where
  health_live health_ready events_ingest events_get : Handler

-- `axum::routing::get` and `post`.
pub data MethodFilter : Type 0 where
  get post : MethodFilter

-- `limit` is that of a `DefaultBodyLimit` layer.
pub record Route : Type 0 where
  pub path : String
  pub method : MethodFilter
  pub handler : Handler
  pub limit : Option ℕ

abbrev pub routes : List Route
routes =
    record { path = "/health/live"; method = get; handler = health_live; limit = none }
    ∷ record { path = "/health/ready"; method = get; handler = health_ready; limit = none }
    ∷ record {
      path = "/v1/events";
      method = post;
      handler = events_ingest;
      limit = some max_body_bytes;
    }
    ∷ record { path = "/v1/events/{event_id}"; method = get; handler = events_get; limit = none }
    ∷ []

-- What axum gives for a request: the route, if there is one; the `Idempotency-Key` header; the
-- body as JSON under a limit; the segment of the path that stands for `{event_id}`, or the status
-- of the answer if it cannot be decoded; and the status of the answer if there is no route.
pub record Axum (Request : Type 0) : Type 0 where
  pub choose : List Route → Request → Option Route
  pub header : Request → Option Bytes
  pub json : Option ℕ → Request → Result EventRequest JsonRejection
  pub path_text : Request → Result Text ℕ
  pub fallback : Request → ℕ

pub data Answer : Type 0 where
  alive : Liveness → Answer
  readiness : ℕ × Readiness → Answer
  response : Response → Answer
  refused : ℕ → Answer

-- What the clocks, the generator of IDs and the database give while a request is served.
pub record Moment : Type 0 where
  pub fresh : EventId
  pub clock : ℕ
  pub now : ℕ
  pub admit_io : AdmitIo
  pub get_io : Option SqlxError
  pub pinged : Option (Result (Unit {0}) StoreError)

module _ {Request : Type 0} (ax : Axum Request) (p : Platform) (m : Moment) (q : Request) where
  unfoldable pub look_up : Result Text ℕ → Table → Answer
  unfolding into_response get_event
  look_up (ok path) table = response (into_response (get_event p m.get_io path table))
  look_up (err status) table = refused status

  unfoldable pub run_handler : Handler → Option ℕ → Table → Answer × Table
  unfolding live ready ingest into_response look_up
  run_handler health_live limit table = (alive live, table)
  run_handler health_ready limit table = (readiness (ready m.pinged), table)
  run_handler events_ingest limit table =
      let (answer, after) =
        ingest p m.fresh m.clock m.admit_io m.now (ax.header q) (ax.json limit q) table in
      (response (into_response answer), after)
  run_handler events_get limit table = (look_up (ax.path_text q) table, table)

  -- The service that `router` makes, on one request.
  unfoldable pub serve : Table → Answer × Table
  unfolding run_handler
  serve table = elim (ax.choose routes q) [
    | none ↦ (refused (ax.fallback q), table)
    | some route ↦ run_handler route.handler route.limit table
  ]
