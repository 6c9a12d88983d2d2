-- ===== src/UnitTests/Workers.antt =====
-- The tests of crates/pulsestream-worker/src/runtime.rs, in one order of the steps that a test
-- allows. The events' IDs are numbers, a fingerprint is 32 bytes of which the first is that number,
-- and a task that is let go succeeds at once.
use pulse_stream.Common.{
  ℕ, zero, suc, ◌+◌, ◌≡◌, refl, true, false, codes, length, text_eq, Option, none, some, List, [],
  ◌∷◌, ◌++◌, trim, trim_start, trim_end, is_whitespace, is_control,
}
use pulse_stream.Json.{number, scalar, with_entry, no_entry, object, is_null}
use pulse_stream.Event.{Event, as_db_str, parse_source, parse_event_type, validate_label}
use pulse_stream.Config.{WorkerRuntimeConfig}
use pulse_stream.Store.Errors.{acknowledged, commit, ask, SqlxError, refused, from_sqlx, is_outage}
use pulse_stream.Store.Schema.{
  Table, find_by_id, find_by_key, passes_checks, new_row, insert_event, has_key,
}
use pulse_stream.Store.Admit.{settle, run_transaction, admit}
use pulse_stream.Store.Claim.{
  claim, has_expired, is_claimable, is_older, insert_row, sort_rows, candidates, is_chosen,
  lease_row, update_chosen, returned, to_claimed, collect, run_claim,
}
use pulse_stream.Store.Complete.{
  complete, complete_row, complete_rows, rows_affected, holds_claim, is_owned_by, is_processing,
}
use pulse_stream.Runtime.{
  Worker, Job, Stage, start, claim_round, take_claims, free_slots, spawn_all, spawn, insert_key,
  remove_key, run_job, process_claim, count_completion, bump, set_stage, join_job, joined_of,
  record_join, remove_job, give_up, report, acknowledge,
}
use pulse_stream.TestDatabase.Rows.{
  expire_lease, expire_rows, expire_row, rows_expired, is_expiring, status_counts, count_status,
  is_pending, is_processed,
}
use pulse_stream.Tests.Samples.{one_by_one, healthy, alice, bob, unlocked, zeros}

abbrev runtime_config : ℕ → WorkerRuntimeConfig
runtime_config n = record {
  concurrency = n;
  poll_interval = 10;
  lease = 30000;
  shutdown_timeout = 5000;
}

abbrev seeded : ℕ → Event
seeded i = record {
  id = record { uuid = i };
  source = record { text = codes "orders-api" };
  event_type = record { text = codes "order.created" };
  payload = object (with_entry (codes "n") (scalar (number ((48 + i) ∷ []))) no_entry);
  accepted_at = 0;
}

abbrev seed : ℕ → Table
seed zero = []
seed (suc i) =
    (admit healthy i (seeded i) (record { text = codes "seed-" ++ (48 + i) ∷ [] })
      (record { bytes = i ∷ zeros 31 }) (seed i)).1

-- A worker beside the table.
abbrev pub World : Type 0
World = Worker × Table

abbrev claims : ℕ → World → World
claims now (w, t) = claim_round acknowledged now unlocked w t

-- The tasks of a list end and are joined.
abbrev release : ℕ → List Job → World → World
release now [] s = s
release now (j ∷ js) (w, t) =
    let (v, u) = run_job j (acknowledge j.claimed.event) acknowledged now w t in
    release now js (join_job (record j { stage = Stage.finished }) v, u)

abbrev pub round : ℕ → World → World
round now s = let x = claims now s in release now x.0.jobs x

-- What the store answers when it gets no connection in time.
abbrev unreachable : ℕ → World → World
unreachable now (w, t) = claim_round (refused SqlxError.pool_timed_out) now unlocked w t

-- A call of `expire_lease`, where it does not panic.
abbrev pub expire : ℕ → ℕ → Table → Table
expire now id t = elim (expire_lease now (record { uuid = id }) t) [ none ↦ [] | some u ↦ u ]

abbrev attempts : Table → List ℕ
attempts [] = []
attempts (r ∷ t) = r.delivery_attempts ∷ attempts t

abbrev owners : Table → List (Option ℕ)
owners [] = []
owners (r ∷ t) = r.processing_owner ∷ owners t

abbrev pub StopsPromptlyWhileDatabaseIsUnreachable : Type 0
StopsPromptlyWhileDatabaseIsUnreachable =
    let s =
      unreachable 1001 (unreachable 1000 (start one_by_one alice (runtime_config 2), seed 2)) in
    (report s.0
      ≡ record { processed = 0; failed = 0; lost_claims = 0; timed_out = false; abandoned = 0 })
    × (s.0.jobs ≡ [])

abbrev pub ProcessesPendingEventsToProcessed : Type 0
ProcessesPendingEventsToProcessed =
    let s =
      round 1002 (round 1001 (round 1000 (start one_by_one alice (runtime_config 4), seed 10))) in
    (status_counts s.1 ≡ (0, 0, 10))
    × ((report s.0).processed ≡ 10)
    × ((report s.0).failed ≡ 0)
    × ((report s.0).lost_claims ≡ 0)
    × (attempts s.1 ≡ 1 ∷ 1 ∷ 1 ∷ 1 ∷ 1 ∷ 1 ∷ 1 ∷ 1 ∷ 1 ∷ 1 ∷ [])

-- What a GatedProcessor has started are the tasks of the worker.
abbrev pub NeverClaimsOrProcessesMoreThanConcurrency : Type 0
NeverClaimsOrProcessesMoreThanConcurrency =
    let blocked = claims 1001 (claims 1000 (start one_by_one alice (runtime_config 4), seed 20)) in
    let first = release 1002 blocked.0.jobs blocked in
    let s = round 1006 (round 1005 (round 1004 (round 1003 first))) in
    (length blocked.0.jobs ≡ 4)
    × (status_counts blocked.1 ≡ (16, 4, 0))
    × (status_counts s.1 ≡ (0, 0, 20))
    × ((report s.0).processed ≡ 20)

abbrev pub ShutdownStopsClaimingAndFinishesActiveEvents : Type 0
ShutdownStopsClaimingAndFinishesActiveEvents =
    let active = claims 1000 (start one_by_one alice (runtime_config 2), seed 6) in
    let s = release 1001 active.0.jobs active in
    (length active.0.jobs ≡ 2)
    × ((report s.0).processed ≡ 2)
    × ((report s.0).timed_out ≡ false)
    × ((report s.0).abandoned ≡ 0)
    × (status_counts s.1 ≡ (4, 0, 2))

abbrev pub AbandonedClaimsAreRecoveredByAnotherWorkerAfterLeaseExpiry : Type 0
AbandonedClaimsAreRecoveredByAnotherWorkerAfterLeaseExpiry =
    let stuck = claims 1000 (start one_by_one alice (runtime_config 2), seed 3) in
    let given_up = report (give_up stuck.0) in
    let left = expire 2000000 1 (expire 2000000 0 stuck.1) in
    let s = round 2000002 (round 2000001 (start one_by_one bob (runtime_config 2), left)) in
    (given_up.timed_out ≡ true)
    × (given_up.abandoned ≡ 2)
    × (status_counts stuck.1 ≡ (1, 2, 0))
    × (owners stuck.1 ≡ some 1 ∷ some 1 ∷ none ∷ [])
    × (status_counts s.1 ≡ (0, 0, 3))
    × ((report s.0).processed ≡ 3)
    × (attempts s.1 ≡ 2 ∷ 2 ∷ 1 ∷ [])

abbrev pub StaleWorkerCannotCompleteAfterItsClaimWasReclaimed : Type 0
StaleWorkerCannotCompleteAfterItsClaimWasReclaimed =
    let slow = claims 1000 (start one_by_one alice (runtime_config 1), seed 1) in
    let other = round 2000001 (start one_by_one bob (runtime_config 1), expire 2000000 0 slow.1) in
    let late = release 2000002 slow.0.jobs (slow.0, other.1) in
    (status_counts other.1 ≡ (0, 0, 1))
    × ((report late.0).processed ≡ 0)
    × ((report late.0).lost_claims ≡ 1)
    × ((report other.0).processed ≡ 1)
    × (attempts late.1 ≡ 2 ∷ [])

runtime_tests_pass :
    StopsPromptlyWhileDatabaseIsUnreachable × ProcessesPendingEventsToProcessed
    × NeverClaimsOrProcessesMoreThanConcurrency × ShutdownStopsClaimingAndFinishesActiveEvents
    × AbandonedClaimsAreRecoveredByAnotherWorkerAfterLeaseExpiry
    × StaleWorkerCannotCompleteAfterItsClaimWasReclaimed
unfolding admit run_transaction commit ask insert_event passes_checks find_by_key find_by_id new_row
    settle has_key is_null text_eq start claim_round take_claims free_slots spawn_all spawn
    insert_key remove_key claim run_claim candidates sort_rows insert_row is_older is_claimable
    has_expired is_chosen update_chosen lease_row returned collect to_claimed parse_source
    parse_event_type validate_label trim trim_start trim_end is_whitespace is_control as_db_str
    run_job acknowledge process_claim count_completion bump set_stage join_job joined_of record_join
    remove_job report complete complete_row complete_rows rows_affected holds_claim is_owned_by
    is_processing status_counts count_status is_pending is_processed from_sqlx is_outage give_up
    expire_lease expire_rows expire_row rows_expired is_expiring
runtime_tests_pass = (
  (refl, refl),
  (refl, refl, refl, refl, refl),
  (refl, refl, refl, refl),
  (refl, refl, refl, refl, refl),
  (refl, refl, refl, refl, refl, refl, refl),
  (refl, refl, refl, refl, refl),
)
