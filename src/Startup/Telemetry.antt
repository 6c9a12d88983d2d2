-- ===== src/Startup/Telemetry.antt =====
-- crates/pulsestream-api/src/telemetry.rs, and the same file in crates/pulsestream-worker. The
-- parser of a filter is an argument.
use pulse_stream.Common.{
  ◌≡◌, ◌⊎◌, ◌↔◌, Bool, Text, String, codes, Option, none, some, Result, ok, err, arith,
}
use pulse_stream.Config.Environment.{Environment, VarError}

abbrev pub default_filter : String
default_filter = "info"

abbrev pub rust_log : String
rust_log = "RUST_LOG"

-- What is installed, and the error that is logged after it.
pub record Telemetry (Filter ParseError : Type 0) : Type 0 where
  pub filter : Filter
  pub ansi : Bool
  pub invalid : Option ParseError

module _ {Filter ParseError : Type 0} (try_new : Text → Result Filter ParseError)
    (new_filter : Text → Filter) where
  -- The filter for what `RUST_LOG` is, and the error to report.
  unfoldable pub choose_filter : Result Text VarError → Filter × Option ParseError
  choose_filter (err e) = (new_filter (codes default_filter), none)
  choose_filter (ok raw) = elim (try_new raw) [
    | ok filter ↦ (filter, none)
    | err e ↦ (new_filter (codes default_filter), some e)
  ]

  -- `init`, on a standard output that is a terminal or is not.
  unfoldable pub init : Environment → Bool → Telemetry Filter ParseError
  unfolding choose_filter
  init env is_terminal =
      let chosen = choose_filter (env rust_log) in
      record { filter = chosen.0; ansi = is_terminal; invalid = chosen.1 }

  -- Nothing is reported exactly if RUST_LOG cannot be read as text, and then the default is
  -- installed, or it is text that parses, and then the filter it parses to is installed.
  reported_iff :
      (env : Environment) (is_terminal : Bool)
      → ((init env is_terminal).invalid ≡ none) ↔ (
          ((e : VarError) × (env rust_log ≡ err e)
            × ((init env is_terminal).filter ≡ new_filter (codes default_filter)))
          ⊎ ((raw : Text) × (env rust_log ≡ ok raw)
              × (try_new raw ≡ ok (init env is_terminal).filter)))
  unfolding init choose_filter
  reported_iff env is_terminal = ground arith
