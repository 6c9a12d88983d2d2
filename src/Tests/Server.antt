-- ===== src/Tests/Server.antt =====
-- Instances for the server: requests with a path, a method, a key and a body of some size.
use text.Mathlib.Text.{◌==◌ as str_eq}
use pulse_stream.Common.{
  Text, ℕ, ◌≤◌, ◌≡◌, ◌≢◌, refl, inl, inr, Bool, true, false, ◌&&◌, Bytes, String, codes, leb,
  if◌then◌else◌, In, Bool-cases, Option, none, some, Result, ok, err, List, [], ◌∷◌, arith, trim,
  trim_start, trim_end, is_whitespace, is_control, utf8, utf8_char, is_ascii_graphic,
}
use pulse_stream.Json.{scalar, bool, is_null}
use pulse_stream.Event.{EventId, new_event, parse_source, parse_event_type, validate_label}
use pulse_stream.Idempotency.{parse_key}
use pulse_stream.Store.Errors.{SqlxError, commit, ask, from_sqlx}
use pulse_stream.Store.Schema.{Table, find_by_id, find_by_key, passes_checks, new_row, insert_event}
use pulse_stream.Store.Invariant.{IsSound}
use pulse_stream.Store.Admit.{resolve, settle, run_transaction, admit}
use pulse_stream.Store.History.{History}
use pulse_stream.Api.Errors.{JsonRejection, bytes_rejection}
use pulse_stream.Api.Response.{into_response}
use pulse_stream.Api.Events.{
  EventRequest, Admission, max_body_bytes, accepted, answer, prepare, submit, idempotency_key,
  ingest,
}
use pulse_stream.Api.Events.Answers.{IsStored}
use pulse_stream.Api.Router.{
  MethodFilter, get, post, Route, Axum, Moment, response, run_handler, serve,
}
use pulse_stream.Api.Router.Writes.{IsRouting, only_ingest_writes}
use pulse_stream.Api.Router.Accepted.{status_of, accepted-IsStored}
use pulse_stream.Api.Router.Outages.{outage_accepts_nothing}
use pulse_stream.System.{Reached, empty_table, requested, system_refines}
use pulse_stream.Tests.Samples.{healthy}
use pulse_stream.Tests.Interface.{platform}

-- `segment` is the part of the path that stands for `{event_id}`.
pub record HttpRequest : Type 0 where
  pub method : MethodFilter
  pub path : String
  pub segment : Text
  pub key : Option Bytes
  pub size : ℕ
  pub body : EventRequest

abbrev same_method : MethodFilter → MethodFilter → Bool
same_method get get = true
same_method get post = false
same_method post get = false
same_method post post = true

abbrev serves : HttpRequest → Route → Bool
serves q r = same_method r.method q.method && str_eq r.path q.path

abbrev first_route : List Route → HttpRequest → Option Route
first_route [] q = none
first_route (r ∷ rs) q = if serves q r then some r else first_route rs q

abbrev read_json : Option ℕ → HttpRequest → Result EventRequest JsonRejection
read_json none q = ok q.body
read_json (some n) q = if leb q.size n then ok q.body else err (bytes_rejection 413)

abbrev pub small_axum : Axum HttpRequest
small_axum = record {
  choose = first_route;
  header = λ q. q.key;
  json = read_json;
  path_text = λ q. ok q.segment;
  fallback = λ q. 404;
}

abbrev IsPost : HttpRequest → Type 0
IsPost q = q.method ≡ post

first_route-In :
    (rs : List Route) (q : HttpRequest) (r : Route) → first_route rs q ≡ some r → In r rs
first_route-In [] q r h = cc
first_route-In (s ∷ rs) q r h = elim (Bool-cases (serves q s)) [
  | inl e ↦ inl (ground arith)
  | inr e ↦ inr (first_route-In rs q r (rw e at h))
]

first_route-post :
    (rs : List Route) (q : HttpRequest) (r : Route)
    → first_route rs q ≡ some r
    → r.method ≡ post
    → IsPost q
first_route-post [] q r h e = cc
first_route-post (s ∷ rs) q r h e = ground (arith, first_route-post rs q r)

small_axum-IsRouting : IsRouting small_axum IsPost (λ q. q.size)
small_axum-IsRouting = record {
  listed = first_route-In;
  posted = first_route-post;
  limited = λ n q e h. ground arith;
  unrouted = λ q. omega arith;
  undecoded = λ q status h. ground arith;
}

abbrev posting : HttpRequest
posting = record {
  method = post;
  path = "/v1/events";
  segment = [];
  key = some (codes "k1");
  size = 60;
  body = record { source = codes "shop"; event_type = codes "order"; payload = scalar (bool true) };
}

abbrev noon : Moment
noon = record {
  fresh = record { uuid = 7 };
  clock = 0;
  now = 3;
  admit_io = healthy;
  get_io = none;
  pinged = none;
}

abbrev served : Table
served = (serve small_axum platform noon posting []).1

served-written : served ≢ []
unfolding serve run_handler ingest prepare submit answer idempotency_key parse_key utf8 utf8_char
    is_ascii_graphic new_event parse_source parse_event_type validate_label trim trim_start trim_end
    is_whitespace is_control is_null admit commit run_transaction settle resolve ask insert_event
    passes_checks find_by_key find_by_id new_row from_sqlx
served-written h = cc

served-accepted : status_of (serve small_axum platform noon posting []).0 ≡ 202
unfolding serve run_handler into_response ingest prepare submit answer accepted idempotency_key
    parse_key utf8 utf8_char is_ascii_graphic new_event parse_source parse_event_type validate_label
    trim trim_start trim_end is_whitespace is_control is_null admit commit run_transaction settle
    resolve ask insert_event passes_checks find_by_key find_by_id new_row from_sqlx
served-accepted = refl

only_ingest_writes_example :
    IsPost posting
    × (posting.size ≤ 65536)
    × ((request : EventRequest) × (read_json (some max_body_bytes) posting ≡ ok request))
    × ((a : Admission) × (prepare platform noon.fresh noon.clock posting.key
            (read_json (some max_body_bytes) posting)
          ≡ ok a))
only_ingest_writes_example =
    only_ingest_writes small_axum IsPost (λ q. q.size) small_axum-IsRouting platform noon posting []
      served-written

accepted-IsStored_example :
    (a : Admission) × (id : EventId) × (replay : Bool) × (prepare platform noon.fresh noon.clock
        posting.key
        (read_json (some max_body_bytes) posting)
      ≡ ok a)
    × ((serve small_axum platform noon posting []).0 ≡ response (accepted platform id replay))
    × IsStored a id served
accepted-IsStored_example =
    accepted-IsStored small_axum IsPost (λ q. q.size) small_axum-IsRouting platform noon posting []
      served-accepted

-- The request and its retry.
two-requests : Reached small_axum platform (serve small_axum platform noon posting served).1
two-requests = requested noon posting (requested noon posting empty_table)

system_refines_example :
    History [] (serve small_axum platform noon posting served).1
    × IsSound (serve small_axum platform noon posting served).1
system_refines_example = system_refines two-requests

-- The database is away.
abbrev night : Moment
night = record noon { admit_io = record healthy { begin = some SqlxError.pool_timed_out } }

outage_accepts_nothing_example :
    (status_of (serve small_axum platform night posting served).0 ≢ 202)
    × ((serve small_axum platform night posting served).1 ≡ served)
outage_accepts_nothing_example =
    outage_accepts_nothing small_axum IsPost (λ q. q.size) small_axum-IsRouting platform night
      posting served SqlxError.pool_timed_out refl
