-- ===== src/Startup/Exits.antt =====
-- What a successful exit of the worker's process says.
use pulse_stream.Common.{ℕ, ◌+◌, ◌^◌, ◌≤◌, ◌≡◌, ◌⊎◌, inl, inr, Bool, false, Text, Result, ok, arith}
use native.Mathlib.Decide.{dec_le}
use pulse_stream.Event.{WorkerId}
use pulse_stream.Store.Schema.{Table}
use pulse_stream.Store.Invariant.{IsSound}
use pulse_stream.Config.{WorkerConfig}
use pulse_stream.Config.Environment.{Environment, worker_from_env, env_lookup}
use pulse_stream.Config.Settings.{InRuntimeRanges, InDatabaseRanges, worker_from_lookup-bounds}
use pulse_stream.Runtime.{RunReport, Worker, start, report, stopped}
use pulse_stream.Runtime.Moves.{Run}
use pulse_stream.Runtime.Accounts.{every_claim_counted}
use pulse_stream.Startup.{
  success, Pool, exit_of_report, WorkerMain, no_settings, no_store, not_migrated, has_run,
}

in_time : (r : RunReport) → success ≡ exit_of_report r → r.timed_out ≡ false
unfolding exit_of_report
in_time r h = ground arith

settings_in_ranges :
    (env : Environment) (c : WorkerConfig)
    → worker_from_env env ≡ ok c
    → InRuntimeRanges c.runtime × InDatabaseRanges c.database
unfolding worker_from_env
settings_in_ranges env c h = worker_from_lookup-bounds (env_lookup env) h

module _ {MigrateError : Type 0} (is_url : Text → Bool)
    (migrator : Pool → Result (Unit {0}) MigrateError) where
  -- If the worker's process, from a sound table, exits with success: its settings were accepted and
  -- are in their documented ranges, and it has run a worker with them until this stopped. Unless its
  -- claims have returned 2^64 events or more, the worker's report has none abandoned, and its
  -- processed, failed and lost events are together as many as the claims have returned.
  pub worker_success :
      {task_ids : ℕ → ℕ} {owner : WorkerId} {env : Environment} {t u : Table}
      → IsSound t
      → WorkerMain is_url migrator task_ids owner env t success u
      → (c : WorkerConfig) × (n : ℕ) × (w : Worker) × (worker_from_env env ≡ ok c)
        × (InRuntimeRanges c.runtime × InDatabaseRanges c.database)
        × Run (start task_ids owner c.runtime) t n w u
        × (w.phase ≡ stopped)
        × ((2 ^ 64 ≤ n)
            ⊎ (((report w).abandoned ≡ 0)
                × ((report w).processed + (report w).failed + (report w).lost_claims ≡ n)))
  worker_success s (no_settings e a x same) = cc
  worker_success s (no_store c e a b x same) = cc
  worker_success s (not_migrated c pool a b m x same) = cc
  worker_success {task_ids} {owner} {env} {t} s (has_run c pool n w a b m r stops x) = (
    c,
    n,
    w,
    a,
    settings_in_ranges env c a,
    r,
    stops,
    elim (dec_le (2 ^ 64) n) [
      | yes large ↦ inl large
      | no small ↦
          elim (every_claim_counted task_ids owner c.runtime t (omega (arith, small)) s r stops) [
            | inl (out, none_left, counted) ↦ inr (none_left, counted)
            | inr (out, most, least) ↦ let late = in_time (report w) x in cc (late, out)
          ]
    ],
  )
