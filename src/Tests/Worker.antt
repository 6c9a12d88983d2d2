-- ===== src/Tests/Worker.antt =====
-- Instances for the worker: two moves, and runs from the start to the end.
use pulse_stream.Common.{
  ℕ, ◌^◌, Result, ok, ◌+◌, ◌≤◌, ◌≡◌, ◌⊎◌, refl, true, false, length, [], arith, some, trim,
  trim_start, trim_end, is_whitespace, is_control,
}
use pulse_stream.Config.{default_runtime}
use pulse_stream.Store.Schema.{Table}
use pulse_stream.Runtime.{
  Worker, Job, Stage, claiming, waiting, draining, stopped, start, free_slots, report, succeeds,
  panics, Processing, claim_round, take_claims, spawn_all, spawn, insert_key, remove_key, find_job,
  remove_job, run_job, process_claim, set_stage, join_job,
}
use pulse_stream.Runtime.Moves.{received, Move, Run}
use pulse_stream.Runtime.Capacity.{never_over_capacity}
use pulse_stream.Runtime.Accounts.{every_claim_counted}
use pulse_stream.Runtime.Drain.{finish, shutdown_completes}
use pulse_stream.Event.{
  worker, service_name, as_db_str, parse_source, parse_event_type, validate_label,
}
use pulse_stream.Store.Errors.{Reply, acknowledged, commit}
use pulse_stream.Store.Claim.{
  claim, has_expired, is_claimable, is_older, insert_row, sort_rows, candidates, is_chosen,
  lease_row, update_chosen, returned, to_claimed, collect, run_claim,
}
use pulse_stream.Config.{WorkerConfig, with_url}
use pulse_stream.Config.Environment.{worker_from_env}
use pulse_stream.Config.Settings.{InRuntimeRanges, InDatabaseRanges}
use pulse_stream.Startup.{
  success, Pool, connect_lazy, migrate, migrated, exit_of_report, WorkerMain,
}
use pulse_stream.Startup.Exits.{worker_success}
use pulse_stream.Tests.Core.{url, env_url, env_url-accepted}
use pulse_stream.Tests.Samples.{
  one_by_one, alice, order, unlocked, pending_table, pending_table-IsSound,
}

-- Alice's worker, from its start to the end of its drain: it claims the pending event, processes it
-- and completes it, and is then shut down.
abbrev first : Worker
first = start one_by_one alice default_runtime

abbrev asking : Worker
asking = record first { phase = claiming }

abbrev busy : Worker
busy = record (claim_round acknowledged 10 unlocked asking pending_table).0 { phase = waiting }

abbrev busy_table : Table
busy_table = (claim_round acknowledged 10 unlocked asking pending_table).1

abbrev job : Job
job = record {
  task = 0;
  id = 0;
  claimed = record { event = record order { accepted_at = 3 }; attempt = 1; reclaimed = false };
  stage = Stage.running;
}

abbrev done : Worker
done = (run_job job succeeds acknowledged 20 busy busy_table).0

abbrev done_table : Table
done_table = (run_job job succeeds acknowledged 20 busy busy_table).1

abbrev closing : Worker
closing = record done { phase = draining }

abbrev ended : Job
ended = record job { stage = Stage.finished }

abbrev last : Worker
last = record (join_job ended closing) { phase = stopped }

one-claimed : received acknowledged 10 unlocked asking pending_table ≡ 1
unfolding received start claim_round take_claims free_slots spawn_all spawn insert_key remove_key
    default_runtime claim commit run_claim candidates sort_rows insert_row is_older is_claimable
    has_expired is_chosen update_chosen lease_row returned collect to_claimed parse_source
    parse_event_type validate_label trim trim_start trim_end is_whitespace is_control as_db_str
one-claimed = refl

job-found : find_job 0 busy.jobs ≡ some job
unfolding find_job start claim_round take_claims free_slots spawn_all spawn insert_key remove_key
    default_runtime claim commit run_claim candidates sort_rows insert_row is_older is_claimable
    has_expired is_chosen update_chosen lease_row returned collect to_claimed parse_source
    parse_event_type validate_label trim trim_start trim_end is_whitespace is_control as_db_str
job-found = refl

ended-found : find_job 0 closing.jobs ≡ some ended
unfolding find_job run_job process_claim set_stage start claim_round take_claims free_slots
    spawn_all spawn insert_key remove_key default_runtime claim commit run_claim candidates
    sort_rows insert_row is_older is_claimable has_expired is_chosen update_chosen lease_row
    returned collect to_claimed parse_source parse_event_type validate_label trim trim_start
    trim_end is_whitespace is_control as_db_str
ended-found = refl

none-left : (join_job ended closing).jobs ≡ []
unfolding join_job remove_job run_job process_claim set_stage start claim_round take_claims
    free_slots spawn_all spawn insert_key remove_key default_runtime claim commit run_claim
    candidates sort_rows insert_row is_older is_claimable has_expired is_chosen update_chosen
    lease_row returned collect to_claimed parse_source parse_event_type validate_label trim
    trim_start trim_end is_whitespace is_control as_db_str
none-left = refl

alice_asks : Move asking pending_table 1 busy busy_table
alice_asks = Move.claims acknowledged 10 unlocked 1 refl one-claimed

alice_processes : Move busy busy_table 0 done done_table
alice_processes = Move.runs job succeeds acknowledged 20 job-found refl

still-waiting : done.phase ≡ waiting
unfolding run_job
still-waiting = refl

still-draining : (join_job ended closing).phase ≡ draining
unfolding join_job
still-draining = refl

alice_closes : Run first pending_table 1 closing done_table
unfolding start
alice_closes =
    let r1 : Run first pending_table 0 asking pending_table =
      Run.next 0 Run.here (Move.nothing_to_join refl) (omega arith) in
    let r2 : Run first pending_table 1 busy busy_table = Run.next 1 r1 alice_asks (omega arith) in
    let r3 : Run first pending_table 1 done done_table =
      Run.next 1 r2 alice_processes (omega arith) in
    Run.next 1 r3 (Move.shuts_down still-waiting) (omega arith)

alice_stops : Run first pending_table 1 last done_table
unfolding start
alice_stops =
    let r5 : Run first pending_table 1 (join_job ended closing) done_table =
      Run.next 1 alice_closes (Move.drains ended refl ended-found (λ h. cc)) (omega arith) in
    Run.next 1 r5 (Move.drained still-draining none-left) (omega arith)

-- At the shutdown the task is still running.
abbrev busy_closing : Worker
busy_closing = record busy { phase = draining }

busy_closes : Run first pending_table 1 busy_closing busy_table
unfolding start
busy_closes =
    let r1 : Run first pending_table 0 asking pending_table =
      Run.next 0 Run.here (Move.nothing_to_join refl) (omega arith) in
    let r2 : Run first pending_table 1 busy busy_table = Run.next 1 r1 alice_asks (omega arith) in
    Run.next 1 r2 (Move.shuts_down refl) (omega arith)

not-timed_out : busy_closing.timed_out ≡ false
unfolding start claim_round take_claims free_slots spawn_all spawn default_runtime claim commit
    run_claim candidates collect returned to_claimed parse_source validate_label trim is_whitespace
    is_control parse_event_type
not-timed_out = refl

-- The task panics.
abbrev panicking : Job → Processing × Reply × ℕ
panicking j = (panics, acknowledged, 30)

shutdown_completes_example :
    let (v, y) = finish panicking busy_closing.jobs busy_closing busy_table in
    Run busy_closing busy_table 0 v y
    × (v.phase ≡ stopped)
    × (v.jobs ≡ [])
    × ((report v).timed_out ≡ false)
    × ((report v).abandoned ≡ 0)
    × ((report v).processed + (report v).failed + (report v).lost_claims ≡ 1)
shutdown_completes_example =
    shutdown_completes panicking one_by_one alice default_runtime pending_table (omega arith)
      pending_table-IsSound busy_closes refl not-timed_out

never_over_capacity_example :
    (length last.jobs ≤ default_runtime.concurrency)
    × (length last.jobs + free_slots last ≡ default_runtime.concurrency)
never_over_capacity_example =
    never_over_capacity one_by_one alice default_runtime pending_table pending_table-IsSound
      alice_stops

every_claim_counted_example :
    (((report last).timed_out ≡ false)
      × ((report last).abandoned ≡ 0)
      × ((report last).processed + (report last).failed + (report last).lost_claims ≡ 1))
    ⊎ (((report last).timed_out ≡ true)
        × ((report last).processed + (report last).failed + (report last).lost_claims ≤ 1)
        × (1
            ≤ (report last).processed
              + (report last).failed
              + (report last).lost_claims
              + (report last).abandoned))
every_claim_counted_example =
    every_claim_counted one_by_one alice default_runtime pending_table (omega arith)
      pending_table-IsSound alice_stops refl

-- The environment has the URL of the database and nothing else, and the migrations succeed.
abbrev migrates : Pool → Result (Unit {0}) (Unit {0})
migrates pool = ok tt

abbrev pool : Pool
pool = record {
  application_name = "pulsestream-worker";
  statement_timeout = "10s";
  max_connections = 10;
  min_connections = 0;
  acquire_timeout = 3000;
  test_before_acquire = true;
}

has-pool : connect_lazy (λ _. true) (with_url url) (service_name worker) ≡ ok pool
unfolding connect_lazy with_url service_name
has-pool = refl

has-migrated : migrated (λ _. true) migrates (with_url url) pool ≡ true
unfolding migrated migrate with_url
has-migrated = refl

exits-success : success ≡ exit_of_report (report last)
unfolding exit_of_report report join_job run_job process_claim start claim_round take_claims
    free_slots spawn_all spawn default_runtime claim commit run_claim candidates collect returned
    to_claimed parse_source validate_label trim is_whitespace is_control parse_event_type
exits-success = refl

alice_exits :
    WorkerMain (λ _. true) migrates one_by_one alice env_url pending_table success done_table
alice_exits =
    WorkerMain.has_run _ pool 1 last env_url-accepted has-pool has-migrated alice_stops refl
      exits-success

worker_success_example :
    (c : WorkerConfig) × (n : ℕ) × (w : Worker) × (worker_from_env env_url ≡ ok c)
    × (InRuntimeRanges c.runtime × InDatabaseRanges c.database)
    × Run (start one_by_one alice c.runtime) pending_table n w done_table
    × (w.phase ≡ stopped)
    × ((2 ^ 64 ≤ n)
        ⊎ (((report w).abandoned ≡ 0)
            × ((report w).processed + (report w).failed + (report w).lost_claims ≡ n)))
worker_success_example = worker_success (λ _. true) migrates pending_table-IsSound alice_exits
