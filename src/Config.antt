-- ===== src/Config.antt =====
-- crates/pulsestream-core/src/config.rs: the settings that the environment gives. The lookup of a
-- variable and the parser of socket addresses are arguments; durations are in milliseconds.
pub mod Environment
pub mod Numbers
pub mod Settings
pub mod Scan
pub mod Urls
use pulse_stream.Common.{
  ℕ, ◌%◌, ◌^◌, Bool, true, false, ◌&&◌, ◌||◌, not, Text, String, codes, trim, text_eq, is_empty,
  starts_with, leb, ◌==◌, if◌then◌else◌, Option, none, some, Result, ok, err, ◌>>=◌, map_err, [],
  ◌∷◌,
}
use pulse_stream.Config.Numbers.{parse_u64}

pub data ConfigError : Type 0 where
  missing : String → ConfigError
  invalid_bind_address : String → Text → ConfigError
  empty unsupported_database_scheme missing_database_host : String → ConfigError
  out_of_range : String → Text → ℕ → ℕ → ConfigError
  invalid_bool : String → Text → ConfigError

abbrev pub api_bind_var : String
api_bind_var = "PULSESTREAM_API_BIND"

abbrev pub database_url_var : String
database_url_var = "DATABASE_URL"

abbrev pub db_max_connections_var : String
db_max_connections_var = "PULSESTREAM_DB_MAX_CONNECTIONS"

abbrev pub db_acquire_timeout_ms_var : String
db_acquire_timeout_ms_var = "PULSESTREAM_DB_ACQUIRE_TIMEOUT_MS"

abbrev pub migrate_on_start_var : String
migrate_on_start_var = "PULSESTREAM_MIGRATE_ON_START"

abbrev pub worker_concurrency_var : String
worker_concurrency_var = "PULSESTREAM_WORKER_CONCURRENCY"

abbrev pub poll_interval_ms_var : String
poll_interval_ms_var = "PULSESTREAM_POLL_INTERVAL_MS"

abbrev pub processing_lease_ms_var : String
processing_lease_ms_var = "PULSESTREAM_PROCESSING_LEASE_MS"

abbrev pub shutdown_timeout_ms_var : String
shutdown_timeout_ms_var = "PULSESTREAM_SHUTDOWN_TIMEOUT_MS"

abbrev pub default_api_bind : String
default_api_bind = "127.0.0.1:8088"

-- A setting of a number: its default, and the ends of its range, which both belong to it.
pub record Range : Type 0 where
  pub default : ℕ
  pub start : ℕ
  pub end : ℕ

abbrev pub db_max_connections : Range
db_max_connections = record { default = 10; start = 1; end = 50 }

abbrev pub db_acquire_timeout_ms : Range
db_acquire_timeout_ms = record { default = 3000; start = 100; end = 60000 }

abbrev pub worker_concurrency : Range
worker_concurrency = record { default = 4; start = 1; end = 64 }

abbrev pub poll_interval_ms : Range
poll_interval_ms = record { default = 250; start = 10; end = 60000 }

abbrev pub processing_lease_ms : Range
processing_lease_ms = record { default = 30000; start = 1000; end = 3600000 }

abbrev pub shutdown_timeout_ms : Range
shutdown_timeout_ms = record { default = 10000; start = 1; end = 300000 }

-- `str::strip_prefix`.
unfoldable pub strip_prefix : Text → Text → Option Text
strip_prefix s [] = some s
strip_prefix [] (d ∷ t) = none
strip_prefix (c ∷ s) (d ∷ t) = let rest = strip_prefix s t in if c == d then rest else none

-- The first part of a split at any `/` or `?`.
unfoldable pub before_path : Text → Text
before_path [] = []
before_path (c ∷ s) = let rest = before_path s in if (c == 47) || (c == 63) then [] else c ∷ rest

-- The last part of a split at each `@`.
unfoldable pub has_at : Text → Bool
has_at [] = false
has_at (c ∷ s) = (c == 64) || has_at s

unfoldable pub after_at : Text → Text
unfolding has_at
after_at [] = []
after_at (c ∷ s) = let rest = after_at s in if (c == 64) || has_at s then rest else c ∷ s

pub record DatabaseUrl : Type 0 where
  pub text : Text

unfoldable pub or_else : Option Text → Option Text → Option Text
or_else (some s) t = some s
or_else none t = t

unfoldable pub check_host : Text → Option Text → Result DatabaseUrl ConfigError
unfolding before_path after_at
check_host value none = err (unsupported_database_scheme database_url_var)
check_host value (some rest) =
    let host = after_at (before_path rest) in
    if is_empty host || starts_with host (codes ":")
    then err (missing_database_host database_url_var)
    else ok (record { text = value })

-- `DatabaseUrl::parse`.
unfoldable pub parse_url : Text → Result DatabaseUrl ConfigError
unfolding strip_prefix or_else check_host
parse_url raw =
    let value = trim raw in
    if is_empty value
    then err (empty database_url_var)
    else check_host value (
        or_else (strip_prefix value (codes "postgres://"))
          (strip_prefix value (codes "postgresql://")))

pub record DatabaseConfig : Type 0 where
  pub url : DatabaseUrl
  pub max_connections : ℕ
  pub acquire_timeout : ℕ
  pub migrate_on_start : Bool

pub record WorkerRuntimeConfig : Type 0 where
  pub concurrency : ℕ
  pub poll_interval : ℕ
  pub lease : ℕ
  pub shutdown_timeout : ℕ

pub record WorkerConfig : Type 0 where
  pub database : DatabaseConfig
  pub runtime : WorkerRuntimeConfig

-- `DatabaseConfig::with_url`.
unfoldable pub with_url : DatabaseUrl → DatabaseConfig
with_url url = record {
  url = url;
  max_connections = db_max_connections.default;
  acquire_timeout = db_acquire_timeout_ms.default;
  migrate_on_start = true;
}

-- `WorkerRuntimeConfig::default`.
unfoldable pub default_runtime : WorkerRuntimeConfig
default_runtime = record {
  concurrency = worker_concurrency.default;
  poll_interval = poll_interval_ms.default;
  lease = processing_lease_ms.default;
  shutdown_timeout = shutdown_timeout_ms.default;
}

unfoldable pub in_range : String → Range → Text → Option ℕ → Result ℕ ConfigError
in_range var range raw none = err (out_of_range var raw range.start range.end)
in_range var range raw (some value) =
    if leb range.start value && leb value range.end
    then ok value
    else err (out_of_range var raw range.start range.end)

unfoldable pub read_bool : String → Text → Result Bool ConfigError
read_bool var value =
    if text_eq value (codes "true")
    then ok true
    else if text_eq value (codes "false")
    then ok false
    else err (invalid_bool var value)

unfoldable pub required : String → Option Text → Result Text ConfigError
required var none = err (missing var)
required var (some raw) = ok raw

module _ (lookup : String → Option Text) where
  unfoldable pub bounded_integer : String → Range → Result ℕ ConfigError
  unfolding in_range parse_u64
  bounded_integer var range = elim (lookup var) [
    | none ↦ ok range.default
    | some raw ↦ in_range var range raw (parse_u64 (trim raw))
  ]

  -- `Duration::from_millis` of it.
  unfoldable pub millis : String → Range → Result ℕ ConfigError
  unfolding bounded_integer
  millis var range = bounded_integer var range

  unfoldable pub boolean : String → Bool → Result Bool ConfigError
  unfolding read_bool
  boolean var default = elim (lookup var) [
    | none ↦ ok default
    | some raw ↦ read_bool var (trim raw)
  ]

  -- `DatabaseConfig::from_lookup`, with its cast to `u32`.
  unfoldable pub database_from_lookup : Result DatabaseConfig ConfigError
  unfolding required parse_url bounded_integer millis boolean
  database_from_lookup = do
    raw ← required database_url_var (lookup database_url_var)
    url ← parse_url raw
    connections ← bounded_integer db_max_connections_var db_max_connections
    acquire ← millis db_acquire_timeout_ms_var db_acquire_timeout_ms
    migrate ← boolean migrate_on_start_var true
    ok (record {
      url = url;
      max_connections = connections % 2 ^ 32;
      acquire_timeout = acquire;
      migrate_on_start = migrate;
    })

  -- `WorkerRuntimeConfig::from_lookup`, with its cast to a `usize` of 32 bits.
  unfoldable pub runtime_from_lookup : Result WorkerRuntimeConfig ConfigError
  unfolding bounded_integer millis
  runtime_from_lookup = do
    concurrency ← bounded_integer worker_concurrency_var worker_concurrency
    poll ← millis poll_interval_ms_var poll_interval_ms
    lease ← millis processing_lease_ms_var processing_lease_ms
    shutdown ← millis shutdown_timeout_ms_var shutdown_timeout_ms
    ok (record {
      concurrency = concurrency % 2 ^ 32;
      poll_interval = poll;
      lease = lease;
      shutdown_timeout = shutdown;
    })

  -- `WorkerConfig::from_lookup`.
  unfoldable pub worker_from_lookup : Result WorkerConfig ConfigError
  unfolding database_from_lookup runtime_from_lookup
  worker_from_lookup = do
    database ← database_from_lookup
    runtime ← runtime_from_lookup
    ok (record { database = database; runtime = runtime })

-- `str::parse` for a `SocketAddr` is a parameter.
module _ {Addr : Type 0} (parse_addr : Text → Option Addr) (lookup : String → Option Text) where
  unfoldable pub bind_address : Text → Option Addr → Result Addr ConfigError
  bind_address raw none = err (invalid_bind_address api_bind_var raw)
  bind_address raw (some addr) = ok addr

  unfoldable pub api_bind : Result Addr ConfigError
  unfolding bind_address
  api_bind = elim (lookup api_bind_var) [
    | none ↦ bind_address (codes default_api_bind) (parse_addr (trim (codes default_api_bind)))
    | some raw ↦ bind_address raw (parse_addr (trim raw))
  ]

  -- `ApiConfig::from_lookup`: the address and the database's settings.
  unfoldable pub api_from_lookup : Result (Addr × DatabaseConfig) ConfigError
  unfolding api_bind database_from_lookup
  api_from_lookup = do bind ← api_bind; database ← database_from_lookup lookup; ok (bind, database)
