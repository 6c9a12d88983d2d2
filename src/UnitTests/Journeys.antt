-- ===== src/UnitTests/Journeys.antt =====
-- The tests of crates/pulsestream-api/src/events.rs that follow events through several requests,
-- an outage and a worker, in one order of the steps that a test allows.
use pulse_stream.Common.{
  ℕ, zero, suc, ◌≡◌, refl, String, Text, Bytes, codes, text_eq, Option, none, some, List, [], ◌∷◌,
  ◌++◌, trim, trim_start, trim_end, is_whitespace, is_control, utf8, utf8_char, is_ascii_graphic,
}
use pulse_stream.Json.{is_null}
use pulse_stream.Event.{
  service_name, new_event, parse_source, parse_event_type, validate_label, parse_event_id,
  as_db_str, as_api_str, from_db_str,
}
use pulse_stream.Idempotency.{
  parse_key, compute, fingerprint_input, frame, to_be_bytes, push_bytes, write_canonical,
  sort_by_key, insert_entry, text_leb, write_entry, join_commas,
}
use pulse_stream.Config.{default_runtime}
use pulse_stream.Store.Errors.{commit, ask, from_sqlx, is_outage, is_unavailable}
use pulse_stream.Store.Schema.{
  Table, has_key, find_by_id, find_by_key, passes_checks, new_row, insert_event,
}
use pulse_stream.Store.Admit.{resolve, settle, run_transaction, admit}
use pulse_stream.Store.Lookup.{get}
use pulse_stream.Store.Claim.{
  claim, has_expired, is_claimable, is_older, insert_row, sort_rows, candidates, is_chosen,
  lease_row, update_chosen, returned, to_claimed, collect, run_claim,
}
use pulse_stream.Store.Complete.{
  complete, complete_row, complete_rows, rows_affected, holds_claim, is_owned_by, is_processing,
}
use pulse_stream.Runtime.{
  start, claim_round, take_claims, free_slots, spawn_all, spawn, insert_key, remove_key, run_job,
  process_claim, count_completion, bump, set_stage, join_job, joined_of, record_join, remove_job,
  report, acknowledge,
}
use pulse_stream.Api.Errors.{parts, retry_after}
use pulse_stream.Api.Health.{live, ready, database_ready}
use pulse_stream.Api.Response.{status_body, error_body, error_response, into_response}
use pulse_stream.Api.Events.{
  store_error, accepted, answer, prepare, submit, idempotency_key, ingest, get_event, find_id,
  found,
}
use pulse_stream.Api.Router.{
  Moment, Answer, alive, readiness, response, look_up, run_handler, serve,
}
use pulse_stream.TestDatabase.Rows.{count_for_source}
use pulse_stream.Tests.Samples.{one_by_one, alice}
use pulse_stream.UnitTests.Keys.{plain_writer}
use pulse_stream.UnitTests.Server.{send, post_request, get_status, get_path, valid}
use pulse_stream.UnitTests.Answers.{at, taken, key, first_table, unreachable, unavailable_answer}
use pulse_stream.UnitTests.Workers.{World, round}

-- The answers to a number of identical requests, and the table after them.
abbrev race : ℕ → List Answer × Table
race zero = ([], [])
race (suc n) =
    let (answers, t) = race n in
    let (a, u) = send (at (suc n)) (post_request key valid) t in (answers ++ a ∷ [], u)

abbrev times : ℕ → Answer → List Answer
times zero a = []
times (suc n) a = a ∷ times n a

abbrev pub ConcurrentIdenticalHttpRequestsShareOneEvent : Type 0
ConcurrentIdenticalHttpRequestsShareOneEvent =
    ((race 30).0 ≡ taken 1 "false" ∷ times 29 (taken 1 "true"))
    × (count_for_source (codes "orders-api") (race 30).1 ≡ 1)

abbrev told : String → Option Text → Answer
told status processed_at = response (record {
  status = 200;
  replayed = none;
  retry_after = none;
  body = status_body (record {
    event_id = 1 ∷ [];
    source = codes "orders-api";
    event_type = codes "order.created";
    status = status;
    accepted_at = 1 ∷ [];
    processed_at = processed_at;
  });
})

abbrev worked : World
worked = round 3 (start one_by_one alice default_runtime, first_table)

-- The second instance of the process is the same service on the same table.
abbrev pub AcceptedEventSurvivesApplicationRestartAndGetsProcessed : Type 0
AcceptedEventSurvivesApplicationRestartAndGetsProcessed =
    ((send (at 1) (post_request key valid) []).0 ≡ taken 1 "false")
    × ((send (at 2) (get_status (1 ∷ [])) first_table).0 ≡ told "pending" none)
    × ((send (at 4) (get_status (1 ∷ [])) worked.1).0 ≡ told "processed" (some (3 ∷ [])))
    × ((report worked.0).processed ≡ 1)
    × ((message : Text) × ((send (at 5) (get_status (9 ∷ [])) worked.1).0
          ≡ response (record {
            status = 404;
            replayed = none;
            retry_after = none;
            body = error_body "EVENT_NOT_FOUND" message;
          })))

abbrev ready_answer : String → ℕ → String → Answer
ready_answer status code database = readiness (
  code,
  record { status = status; service = "pulsestream-api"; checks = ("database", database) ∷ [] },
)

abbrev posted : Bytes → Moment → Table → Answer × Table
posted k m t = send m (post_request (some k) valid) t

abbrev pub OutageRejectsAdmissionAndRecoversWithoutRestart : Type 0
OutageRejectsAdmissionAndRecoversWithoutRestart =
    let before = posted (codes "before") (at 1) [] in
    let during = posted (codes "during") unreachable before.1 in
    let after = posted (codes "after") (at 2) during.1 in
    ((send (at 1) (get_path "/health/ready") []).0 ≡ ready_answer "ok" 200 "ready")
    × (before.0 ≡ taken 1 "false")
    × ((send unreachable (get_path "/health/live") before.1).0
        ≡ alive (record { status = "ok"; service = "pulsestream-api" }))
    × ((send unreachable (get_path "/health/ready") before.1).0
        ≡ ready_answer "unavailable" 503 "unavailable")
    × (during.0 ≡ unavailable_answer)
    × ((send (at 2) (get_path "/health/ready") during.1).0 ≡ ready_answer "ok" 200 "ready")
    × (after.0 ≡ taken 2 "false")
    × (count_for_source (codes "orders-api") after.1 ≡ 2)

journeys_pass :
    ConcurrentIdenticalHttpRequestsShareOneEvent
    × AcceptedEventSurvivesApplicationRestartAndGetsProcessed
    × OutageRejectsAdmissionAndRecoversWithoutRestart
unfolding serve run_handler ingest prepare submit answer accepted idempotency_key parse_key utf8
    utf8_char is_ascii_graphic new_event parse_source parse_event_type validate_label trim
    trim_start trim_end is_whitespace is_control is_null compute fingerprint_input frame to_be_bytes
    push_bytes write_canonical sort_by_key insert_entry text_leb write_entry join_commas
    plain_writer admit commit run_transaction settle resolve ask insert_event passes_checks has_key
    text_eq find_by_key find_by_id new_row from_sqlx is_outage is_unavailable store_error
    into_response error_response parts retry_after look_up get_event find_id found parse_event_id
    get as_db_str as_api_str from_db_str live ready database_ready service_name count_for_source
    default_runtime start claim_round take_claims free_slots spawn_all spawn insert_key remove_key
    claim run_claim candidates sort_rows insert_row is_older is_claimable has_expired is_chosen
    update_chosen lease_row returned collect to_claimed run_job acknowledge process_claim
    count_completion bump set_stage join_job joined_of record_join remove_job report complete
    complete_row complete_rows rows_affected holds_claim is_owned_by is_processing
journeys_pass = (
  (refl, refl),
  (refl, refl, refl, refl, (_, refl)),
  (refl, refl, refl, refl, refl, refl, refl, refl),
)
