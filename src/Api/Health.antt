-- ===== src/Api/Health.antt =====
-- crates/pulsestream-api/src/health.rs and `Store::ping`.
use pulse_stream.Common.{
  ℕ, Bool, true, false, if◌then◌else◌, String, Option, none, some, Result, ok, err, List, [], ◌∷◌,
}
use pulse_stream.Event.{api, service_name}
use pulse_stream.Store.Errors.{SqlxError, StoreError, ask}

pub record Liveness : Type 0 where
  pub status : String
  pub service : String

pub record Readiness : Type 0 where
  pub status : String
  pub service : String
  pub checks : List (String × String)

unfoldable pub live : Liveness
unfolding service_name
live = record { status = "ok"; service = service_name api }

-- `Store::ping`.
unfoldable pub ping : Option SqlxError → Result (Unit {0}) StoreError
unfolding ask
ping io = ask io

-- `tokio::time::timeout` gives nothing if the time limit passes first.
unfoldable pub database_ready : Option (Result (Unit {0}) StoreError) → Bool
database_ready (some (ok u)) = true
database_ready (some (err e)) = false
database_ready none = false

unfoldable pub ready : Option (Result (Unit {0}) StoreError) → ℕ × Readiness
unfolding database_ready service_name
ready pinged =
    let up = database_ready pinged in
    let checks : List (String × String) =
      ("database", if up then "ready" else "unavailable") ∷ [] in
    if up
    then (200, record { status = "ok"; service = service_name api; checks = checks })
    else (503, record { status = "unavailable"; service = service_name api; checks = checks })
