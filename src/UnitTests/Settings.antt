-- ===== src/UnitTests/Settings.antt =====
-- The tests of crates/pulsestream-core/src/config.rs. A socket address is its text.
use text.Mathlib.Text.{◌==◌ as str_eq}
use pulse_stream.Common.{
  ℕ, ◌≡◌, refl, true, false, Text, String, codes, if◌then◌else◌, Option, none, some, Result, ok,
  err, List, [], ◌∷◌, All, text_eq, trim, trim_start, trim_end, is_whitespace, starts_with,
}
use pulse_stream.Config.{
  ConfigError, missing, invalid_bind_address, empty, unsupported_database_scheme,
  missing_database_host, out_of_range, invalid_bool, DatabaseConfig, WorkerConfig, api_bind_var,
  database_url_var, db_max_connections_var, db_acquire_timeout_ms_var, migrate_on_start_var,
  worker_concurrency_var, poll_interval_ms_var, processing_lease_ms_var, shutdown_timeout_ms_var,
  strip_prefix, before_path, has_at, after_at, or_else, check_host, parse_url, default_runtime,
  in_range, read_bool, required, bounded_integer, millis, boolean, database_from_lookup,
  runtime_from_lookup, worker_from_lookup, bind_address, api_bind, api_from_lookup,
}
use pulse_stream.Config.Numbers.{parse_u64}

abbrev default_url : Text
default_url = codes "postgres://user:pw@127.0.0.1:55432/pulsestream"

-- A map that is collected from pairs: the last value of a key stays.
unfoldable pub env_of : List (String × Text) → String → Option Text
env_of [] key = none
env_of ((k, v) ∷ vars) key =
    let later = env_of vars key in
    elim later [ some w ↦ some w | none ↦ if str_eq k key then some v else none ]

abbrev pub all_vars : List (String × Text) → String → Option Text
all_vars vars = env_of ((database_url_var, default_url) ∷ vars)

abbrev pub api_settings : List (String × Text) → Result (Text × DatabaseConfig) ConfigError
api_settings vars = api_from_lookup some (all_vars vars)

abbrev pub worker_settings : List (String × Text) → Result WorkerConfig ConfigError
worker_settings vars = worker_from_lookup (all_vars vars)

abbrev pub DatabaseUrlIsRequired : Type 0
DatabaseUrlIsRequired =
    (api_from_lookup some (env_of []) ≡ err (missing database_url_var))
    × (worker_from_lookup (env_of []) ≡ err (missing database_url_var))

DatabaseUrlIsRequired_passes : DatabaseUrlIsRequired
unfolding env_of api_from_lookup api_bind bind_address worker_from_lookup database_from_lookup
    required
DatabaseUrlIsRequired_passes = (refl, refl)

-- The address stands for the parsed one; that it is a loopback address is not stated.
abbrev pub DefaultsAreConservative : Type 0
DefaultsAreConservative =
    ((c : DatabaseConfig) × (api_settings [] ≡ ok (codes "127.0.0.1:8088", c))
      × (c.max_connections ≡ 10)
      × (c.acquire_timeout ≡ 3000)
      × (c.migrate_on_start ≡ true))
    × ((c : WorkerConfig) × (worker_settings [] ≡ ok c)
        × (c.runtime ≡ default_runtime)
        × (c.runtime.concurrency ≡ 4)
        × (c.runtime.poll_interval ≡ 250)
        × (c.runtime.lease ≡ 30000)
        × (c.runtime.shutdown_timeout ≡ 10000))

DefaultsAreConservative_passes : DefaultsAreConservative
unfolding env_of api_from_lookup api_bind bind_address worker_from_lookup database_from_lookup
    runtime_from_lookup required parse_url strip_prefix or_else check_host before_path after_at
    has_at trim trim_start trim_end is_whitespace starts_with bounded_integer millis boolean
    default_runtime
DefaultsAreConservative_passes =
    ((_, refl, refl, refl, refl), (_, refl, refl, refl, refl, refl, refl))

abbrev pub RejectsInvalidBindAddress : Type 0
RejectsInvalidBindAddress =
    (value : Text) × (api_from_lookup {Addr = Text} (λ t. none)
        (all_vars ((api_bind_var, codes "localhost") ∷ []))
      ≡ err (invalid_bind_address api_bind_var value))

RejectsInvalidBindAddress_passes : RejectsInvalidBindAddress
unfolding env_of api_from_lookup api_bind bind_address
RejectsInvalidBindAddress_passes = (_, refl)

abbrev pub IsKept : Text → Type 0
IsKept url =
    (c : DatabaseConfig) × (database_from_lookup (env_of ((database_url_var, url) ∷ [])) ≡ ok c)
    × (c.url.text ≡ url)

abbrev pub AcceptsPostgresUrls : Type 0
AcceptsPostgresUrls =
    All IsKept (default_url ∷ codes "postgresql://db.internal/pulsestream?sslmode=require" ∷ [])

AcceptsPostgresUrls_passes : AcceptsPostgresUrls
unfolding env_of database_from_lookup required parse_url strip_prefix or_else check_host before_path
    after_at has_at trim trim_start trim_end is_whitespace starts_with bounded_integer millis
    boolean
AcceptsPostgresUrls_passes = ((_, refl, refl), ((_, refl, refl), tt))

abbrev pub parse_in : Text → Result DatabaseConfig ConfigError
parse_in url = database_from_lookup (env_of ((database_url_var, url) ∷ []))

abbrev pub RejectsMalformedDatabaseUrls : Type 0
RejectsMalformedDatabaseUrls =
    (parse_in (codes "  ") ≡ err (empty database_url_var))
    × (parse_in (codes "mysql://h/db") ≡ err (unsupported_database_scheme database_url_var))
    × (parse_in (codes "postgres://user:pw@:5432/db")
        ≡ err (missing_database_host database_url_var))

RejectsMalformedDatabaseUrls_passes : RejectsMalformedDatabaseUrls
unfolding env_of database_from_lookup required parse_url strip_prefix or_else check_host before_path
    after_at has_at trim trim_start trim_end is_whitespace starts_with
RejectsMalformedDatabaseUrls_passes = (refl, refl, refl)

abbrev pub AcceptsLimitsAtRangeBounds : Type 0
AcceptsLimitsAtRangeBounds =
    (c : WorkerConfig) × (worker_settings (
        (db_max_connections_var, codes "50")
        ∷ (db_acquire_timeout_ms_var, codes "100")
        ∷ (migrate_on_start_var, codes "false")
        ∷ (worker_concurrency_var, codes "1")
        ∷ (poll_interval_ms_var, codes "60000")
        ∷ (processing_lease_ms_var, codes " 1000 ")
        ∷ (shutdown_timeout_ms_var, codes "300000")
        ∷ [])
      ≡ ok c)
    × (c.database.max_connections ≡ 50)
    × (c.database.acquire_timeout ≡ 100)
    × (c.database.migrate_on_start ≡ false)
    × (c.runtime.concurrency ≡ 1)
    × (c.runtime.poll_interval ≡ 60000)
    × (c.runtime.lease ≡ 1000)
    × (c.runtime.shutdown_timeout ≡ 300000)

AcceptsLimitsAtRangeBounds_passes : AcceptsLimitsAtRangeBounds
unfolding env_of worker_from_lookup database_from_lookup runtime_from_lookup required parse_url
    strip_prefix or_else check_host before_path after_at has_at trim trim_start trim_end
    is_whitespace starts_with bounded_integer millis boolean in_range read_bool parse_u64 text_eq
AcceptsLimitsAtRangeBounds_passes = (_, refl, refl, refl, refl, refl, refl, refl, refl)

abbrev IsOutOfRange : String × Text → Type 0
IsOutOfRange (var, value) =
    (raw : Text) × (start end : ℕ) × (worker_settings ((var, value) ∷ [])
      ≡ err (out_of_range var raw start end))

abbrev pub RejectsOutOfRangeIntegers : Type 0
RejectsOutOfRangeIntegers = All IsOutOfRange (
    (db_max_connections_var, codes "0")
    ∷ (db_max_connections_var, codes "51")
    ∷ (db_acquire_timeout_ms_var, codes "99")
    ∷ (worker_concurrency_var, codes "0")
    ∷ (worker_concurrency_var, codes "65")
    ∷ (worker_concurrency_var, codes "4.5")
    ∷ (poll_interval_ms_var, codes "9")
    ∷ (processing_lease_ms_var, codes "999")
    ∷ (processing_lease_ms_var, codes "18446744073709551615")
    ∷ (shutdown_timeout_ms_var, codes "0")
    ∷ (shutdown_timeout_ms_var, codes "-1")
    ∷ (shutdown_timeout_ms_var, codes "")
    ∷ [])

RejectsOutOfRangeIntegers_passes : RejectsOutOfRangeIntegers
unfolding env_of worker_from_lookup database_from_lookup runtime_from_lookup required parse_url
    strip_prefix or_else check_host before_path after_at has_at trim trim_start trim_end
    is_whitespace starts_with bounded_integer millis boolean in_range parse_u64
RejectsOutOfRangeIntegers_passes = (
  (_, _, _, refl),
  (
    (_, _, _, refl),
    (
      (_, _, _, refl),
      (
        (_, _, _, refl),
        (
          (_, _, _, refl),
          (
            (_, _, _, refl),
            (
              (_, _, _, refl),
              (
                (_, _, _, refl),
                ((_, _, _, refl), ((_, _, _, refl), ((_, _, _, refl), ((_, _, _, refl), tt)))),
              ),
            ),
          ),
        ),
      ),
    ),
  ),
)

abbrev pub RejectsNonBooleanMigrateFlag : Type 0
RejectsNonBooleanMigrateFlag =
    (value : Text) × (api_settings ((migrate_on_start_var, codes "yes") ∷ [])
      ≡ err (invalid_bool migrate_on_start_var value))

RejectsNonBooleanMigrateFlag_passes : RejectsNonBooleanMigrateFlag
unfolding env_of api_from_lookup api_bind bind_address database_from_lookup required parse_url
    strip_prefix or_else check_host before_path after_at has_at trim trim_start trim_end
    is_whitespace starts_with bounded_integer millis boolean in_range read_bool text_eq
RejectsNonBooleanMigrateFlag_passes = (_, refl)
