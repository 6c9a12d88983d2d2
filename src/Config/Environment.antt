-- ===== src/Config/Environment.antt =====
-- `ApiConfig::from_env` and `WorkerConfig::from_env` of crates/pulsestream-core/src/config.rs. The
-- environment is what `std::env::var` answers for a name.
use pulse_stream.Common.{◌≡◌, refl, Text, String, Option, none, some, Result, ok, err}
use pulse_stream.Config.{
  ConfigError, DatabaseConfig, Range, WorkerConfig, api_from_lookup, bounded_integer,
  worker_from_lookup,
}

-- Why `std::env::var` gives no text.
pub data VarError : Type 0 where
  not_present not_unicode : VarError

abbrev pub Environment : Type 0
Environment = String → Result Text VarError

-- `std::env::var(key).ok()`: a variable whose bytes are not Unicode counts as one that is not set.
unfoldable pub env_lookup : Environment → String → Option Text
env_lookup env key = elim (env key) [ ok raw ↦ some raw | err e ↦ none ]

-- `WorkerConfig::from_env`.
unfoldable pub worker_from_env : Environment → Result WorkerConfig ConfigError
unfolding env_lookup worker_from_lookup
worker_from_env env = worker_from_lookup (env_lookup env)

-- `ApiConfig::from_env`.
unfoldable pub api_from_env :
    {Addr : Type 0}
    → (Text → Option Addr)
    → Environment
    → Result (Addr × DatabaseConfig) ConfigError
unfolding env_lookup api_from_lookup
api_from_env parse_addr env = api_from_lookup parse_addr (env_lookup env)

-- A number whose variable is set to bytes that are not Unicode gets its default, as if the variable
-- were not set.
not_unicode_takes_default :
    (env : Environment) (var : String) (range : Range)
    → env var ≡ err not_unicode
    → bounded_integer (env_lookup env) var range ≡ ok range.default
unfolding bounded_integer env_lookup
not_unicode_takes_default env var range h = rw (bounded_integer, env_lookup, h) refl
