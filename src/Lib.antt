-- ===== src/Lib.antt =====
-- PulseStream: a model of the event-ingestion service in crates/, and theorems about it.
--
-- The program has four crates. pulsestream-core holds the domain types, the idempotency
-- fingerprint and the settings; pulsestream-store is the only code that talks to PostgreSQL;
-- pulsestream-api is the HTTP process, which admits events and reports their state;
-- pulsestream-worker is the process that claims events, processes them and completes them. The two
-- processes meet only in the `events` table.
--
-- Files and code:
--   Common       what Rust's core library gives: Result, text as code points, trim, UTF-8
--   Json         serde_json's Value, by its documented shape
--   Event        crates/pulsestream-core/src/event.rs, src/lib.rs (EventId, EventStatus, Event::new)
--   Idempotency  crates/pulsestream-core/src/idempotency.rs (IdempotencyKey::parse, write_canonical,
--                RequestFingerprint::compute); Canonical holds what the canonical form keeps, Framing
--                and Requests what the fingerprint tells apart
--   Config       crates/pulsestream-core/src/config.rs (bounded_integer, the from_lookup functions;
--                Environment holds from_env, Urls is about DatabaseUrl::parse)
--   Store        crates/pulsestream-store/src/lib.rs (Admit, Lookup, Claim, Complete: the operations
--                of Store) and migrations/0001_create_events.sql (Schema: the table as a list of rows;
--                Trigger: what PostgreSQL checks on an UPDATE). Invariant, History, Leases, Processed,
--                Stale and Settled are about all sequences of calls
--   Runtime      crates/pulsestream-worker/src/runtime.rs (run, record_join, process_claim; and
--                processor.rs): Capacity, Accounts and Drain are about the slots, the report and the
--                shutdown
--   Api          crates/pulsestream-api/src/events.rs, error.rs, health.rs, and app.rs (Router: the
--                routes, and the service that they make)
--   Startup      crates/pulsestream-worker/src/main.rs, crates/pulsestream-api/src/main.rs and
--                Store::connect_lazy; Shutdown is about shutdown.rs and Telemetry about telemetry.rs,
--                which both processes have in the same form. The worker's main is a relation, since it
--                contains a run; the API's is a function of what the listener and axum's server give
--   System       the two processes together, on one table; Delivery follows an event from its claim to
--                what a client is told, LostClaims the late end of a task
--   Gated        crates/pulsestream-worker/src/testing.rs (GatedProcessor)
--   TestDatabase crates/pulsestream-store/src/testing.rs (TestDatabase, its names, URLs and queries;
--                Outage and Proxy are about OutageProxy)
--   Tests        the theorems at concrete inputs
--   UnitTests    the crates' own tests, as propositions about the model that hold by
--                computation; a concurrent test in one order of its steps
--
-- State. The table is a list of rows in the order of their insertion. Each operation of Store is a
-- function from the table and the database's answers (a failure at any statement; a commit that is
-- acknowledged, refused, or done with its reply lost) to a result and a table. A statement is
-- atomic and the statements of all processes come in some order: Store.History is the relation of
-- all such sequences, and a claim is given the rows that other transactions have locked at the
-- time. The worker is a state machine (Runtime.Moves) whose tasks end at any point between the
-- loop's steps, and other processes may use the table between any two of its steps; the code's
-- `assert!(concurrency > 0)` is not needed by any theorem. The test support is used from several
-- threads: each atomic operation of GatedProcessor::process is one step of a call, and calls and
-- tests take their steps in any order; so do the loop and the switch of the proxy, whose
-- connections are given by the version of the watch channel at which they have subscribed.
--
-- Bounds. Times are microseconds in the store and milliseconds in the settings, as numbers without
-- a largest value. The counters of a run are 64-bit and wrap; the theorem on them asks for fewer
-- than 2^64 events returned by claims, and those on the test processor, whose counters wrap too, for fewer
-- than 2^64 calls. The permits of a semaphore are not bounded. An attempt counter at the largest
-- INTEGER makes the claim fail, as in PostgreSQL. No definition needs fuel: every loop of the code
-- is a recursion on a list, and the worker's endless loop is a relation.
--
-- Parameters, of which only the stated behaviour is used: SHA-256 (its digest has 32 bytes, and it
-- has no collision between the inputs of the two requests that are compared), the uuid crate's
-- text form, serde_json's writer of a scalar (what it writes for JSON scalars can be read back:
-- Idempotency.Canonical.Scalars), the Debug form of a text, HeaderValue::to_str, the parser of
-- socket addresses, PostgreSQL's to_char and equality of JSONB (every value equals itself), the
-- migrator, the listener and the server, and axum: it chooses one of the routes, a route of `post`
-- for POST only, rejects a body over the route's limit, and answers by itself with an error
-- status. The identities that tokio gives to tasks may be any numbers. A fresh UUID and each
-- reading of a clock are arguments.
--
-- Not modelled: what is logged, Debug forms, JSONB's rewriting of a stored payload, a task that the
-- shutdown aborts in the middle of its completion, the body that is left off an answer to HEAD, the
-- indexes of the table, and of the test support the creation and removal of databases on the server
-- and the proxy's sockets. Of the tests those of migrations, of pools, of concurrent claimers and
-- of two workers that share a processor are not modelled as tests; the theorems on histories of
-- calls and runs of the worker are about all such runs.
pub mod Common
pub mod Json
pub mod Event
pub mod Idempotency
pub mod Store
pub mod Config
pub mod Runtime
pub mod Gated
pub mod TestDatabase
pub mod Api
pub mod Startup
pub mod System
mod Tests
mod UnitTests
