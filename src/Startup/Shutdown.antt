-- ===== src/Startup/Shutdown.antt =====
-- `signal` of crates/pulsestream-api/src/shutdown.rs, and the same file in
-- crates/pulsestream-worker. What tokio has told of a signal so far is an argument.
use pulse_stream.Common.{
  ◌≡◌, ◌⊎◌, ◌↔◌, Bool, true, false, if◌then◌else◌, Option, none, some, Result, ok, err, arith,
}

pub data Signal : Type 0 where
  sigint sigterm : Signal

module _ {IoError : Type 0} where
  -- `interrupt` has resolved: `ctrl_c` has, and without an error; after an error it is pending for
  -- ever.
  unfoldable pub interrupted : Option (Result (Unit {0}) IoError) → Bool
  interrupted none = false
  interrupted (some (ok u)) = true
  interrupted (some (err e)) = false

  -- `terminate` has resolved: the stream could be made, and has received.
  unfoldable pub terminated : Result Bool IoError → Bool
  terminated (ok received) = received
  terminated (err e) = false

  -- What a poll of `signal` gives; `first` says which branch `select!` polls first.
  unfoldable pub signal :
      Bool → Option (Result (Unit {0}) IoError) → Result Bool IoError → Option Signal
  unfolding interrupted terminated
  signal first ctrl_c stream =
      if first
      then if interrupted ctrl_c
        then some sigint
        else if terminated stream
        then some sigterm
        else none
      else if terminated stream
      then some sigterm
      else if interrupted ctrl_c
      then some sigint
      else none

  -- Whichever branch is polled first, the shutdown is not requested exactly if neither signal has
  -- arrived; a listener that failed does not request it.
  signal_waits_iff :
      (first : Bool) (ctrl_c : Option (Result (Unit {0}) IoError)) (stream : Result Bool IoError)
      → (signal first ctrl_c stream ≡ none) ↔ (
          ((ctrl_c ≡ none) ⊎ ((e : IoError) × (ctrl_c ≡ some (err e))))
          × ((stream ≡ ok false) ⊎ ((e : IoError) × (stream ≡ err e))))
  unfolding signal interrupted terminated
  signal_waits_iff first ctrl_c stream = ground arith
