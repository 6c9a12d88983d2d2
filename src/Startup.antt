-- ===== src/Startup.antt =====
-- The processes: crates/pulsestream-worker/src/main.rs, crates/pulsestream-api/src/main.rs and
-- `Store::connect_lazy`. What the environment, the migrator, the listener and the server give is an
-- argument.
pub mod Exits
pub mod Shutdown
pub mod Telemetry
use pulse_stream.Common.{
  ℕ, Bool, true, false, Text, String, if◌then◌else◌, Option, none, some, Result, ok, err, map_err,
  ◌≡◌,
}
use pulse_stream.Event.{WorkerId, api, worker, service_name}
use pulse_stream.Store.Errors.{StoreError, invalid_config, migration}
use pulse_stream.Config.{ConfigError, DatabaseConfig, WorkerConfig}
use pulse_stream.Config.Environment.{Environment, worker_from_env, api_from_env}
use pulse_stream.Store.Schema.{Table}
use pulse_stream.Runtime.{RunReport, Worker, start, report, stopped}
use pulse_stream.Runtime.Moves.{Run}

pub data ExitCode : Type 0 where
  success failure : ExitCode

abbrev pub statement_timeout : String
statement_timeout = "10s"

-- The options of the pool that `connect_lazy` makes.
pub record Pool : Type 0 where
  pub application_name : String
  pub statement_timeout : String
  pub max_connections : ℕ
  pub min_connections : ℕ
  pub acquire_timeout : ℕ
  pub test_before_acquire : Bool

-- `Store::connect_lazy`; sqlx's check of the URL is an argument.
unfoldable pub connect_lazy : (Text → Bool) → DatabaseConfig → String → Result Pool StoreError
connect_lazy is_url config name =
    if is_url config.url.text
    then ok (record {
      application_name = name;
      statement_timeout = statement_timeout;
      max_connections = config.max_connections;
      min_connections = 0;
      acquire_timeout = config.acquire_timeout;
      test_before_acquire = true;
    })
    else err invalid_config

-- `Store::migrate`; the answer of sqlx's migrator is an argument.
unfoldable pub migrate :
    {MigrateError : Type 0} → Result (Unit {0}) MigrateError → Result (Unit {0}) StoreError
migrate answer = map_err (λ _. migration) answer

unfoldable pub exit_of_report : RunReport → ExitCode
exit_of_report r = if r.timed_out then failure else success

module _ {MigrateError : Type 0} (is_url : Text → Bool)
    (migrator : Pool → Result (Unit {0}) MigrateError) where
  -- Whether the start goes on after the migrations, if these are to be applied.
  unfoldable pub migrated : DatabaseConfig → Pool → Bool
  unfolding migrate
  migrated config pool =
      if config.migrate_on_start
      then elim (migrate (migrator pool)) [ ok u ↦ true | err e ↦ false ]
      else true

  -- The worker's `main`, from the table `t`, ends with the exit code `x` and leaves `u`: it stops at
  -- one of its early returns, or after a run of the worker to its end.
  pub data WorkerMain (task_ids : ℕ → ℕ) (owner : WorkerId) (env : Environment) (t : Table)
      (x : ExitCode) (u : Table) : Type 0 where
    no_settings :
        (e : ConfigError)
        → worker_from_env env ≡ err e
        → x ≡ failure
        → u ≡ t
        → WorkerMain task_ids owner env t x u
    no_store :
        (c : WorkerConfig) (e : StoreError)
        → worker_from_env env ≡ ok c
        → connect_lazy is_url c.database (service_name worker) ≡ err e
        → x ≡ failure
        → u ≡ t
        → WorkerMain task_ids owner env t x u
    not_migrated :
        (c : WorkerConfig) (pool : Pool)
        → worker_from_env env ≡ ok c
        → connect_lazy is_url c.database (service_name worker) ≡ ok pool
        → migrated c.database pool ≡ false
        → x ≡ failure
        → u ≡ t
        → WorkerMain task_ids owner env t x u
    has_run :
        (c : WorkerConfig) (pool : Pool) (n : ℕ) (w : Worker)
        → worker_from_env env ≡ ok c
        → connect_lazy is_url c.database (service_name worker) ≡ ok pool
        → migrated c.database pool ≡ true
        → Run (start task_ids owner c.runtime) t n w u
        → w.phase ≡ stopped
        → x ≡ exit_of_report (report w)
        → WorkerMain task_ids owner env t x u

  -- The API's `main`: `bind` gives the listener, and `serve` says whether the server ended well.
  module _ {Addr Listener : Type 0} (parse_addr : Text → Option Addr)
      (bind : Addr → Option Listener) (serve : Listener → Pool → Bool) where
    unfoldable pub start_api : Addr → DatabaseConfig → ExitCode
    unfolding connect_lazy migrated service_name
    start_api addr database = elim (connect_lazy is_url database (service_name api)) [
      | err e ↦ failure
      | ok pool ↦
          if migrated database pool
          then elim (bind addr) [
            | none ↦ failure
            | some listener ↦ if serve listener pool then success else failure
          ]
          else failure
    ]

    unfoldable pub api_main : Environment → ExitCode
    unfolding api_from_env start_api
    api_main env = elim (api_from_env parse_addr env) [
      | err e ↦ failure
      | ok (addr, database) ↦ start_api addr database
    ]
