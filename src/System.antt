-- ===== src/System.antt =====
-- The two processes together: any number of requests to the API and any number of workers, on one
-- table that is empty at first.
pub mod Delivery
pub mod LostClaims
use pulse_stream.Common.{
  ℕ, ◌*◌, ◌≡◌, ap, ◌∙◌, Bool, Bool-cases, Option-cases, inl, inr, Bytes, Option, Result,
  Result-cases, ok, ltb, [],
}
use pulse_stream.Event.{EventId}
use pulse_stream.Event.Labels.{IsValidEvent, new_event_iff}
use pulse_stream.Store.Errors.{Reply}
use pulse_stream.Store.Schema.{Table}
use pulse_stream.Store.Invariant.{IsSound}
use pulse_stream.Store.Admit.{AdmitIo}
use pulse_stream.Store.History.{
  admits, claims, completes, History, here, next, IsSound-empty, History-IsSound,
}
use pulse_stream.Runtime.{
  Worker, Job, Processing, succeeds, fails, panics, claim_round, free_slots, run_job, process_claim,
}
use pulse_stream.Runtime.Moves.{Move}
use pulse_stream.Api.Errors.{JsonRejection}
use pulse_stream.Api.Events.{Platform, EventRequest, Admission, prepare, ingest}
use pulse_stream.Api.Router.{
  Axum, Moment, Handler, health_live, health_ready, events_ingest, events_get, routes, run_handler,
  serve,
}
use pulse_stream.Api.Events.Prepared.{prepare-IsPrepared}
use pulse_stream.Api.Events.Answers.{ingest_ok, ingest_err}
use pulse_stream.Api.Events.Retries.{submit-admit}

prepared-IsValidEvent :
    (p : Platform) (fresh : EventId) (clock : ℕ) (header : Option Bytes)
    (body : Result EventRequest JsonRejection) (a : Admission)
    → prepare p fresh clock header body ≡ ok a
    → IsValidEvent a.event
prepared-IsValidEvent p fresh clock header body a q =
    let i = prepare-IsPrepared p fresh clock header body a q in
    let r = i.request in
    let (valid, _, _, _, _, _) =
      (new_event_iff fresh clock r.source r.event_type r.payload a.event).0 i.built in
    valid

-- A request to `ingest` makes at most one call of the store that changes the table.
ingest-History :
    (p : Platform) (fresh : EventId) (clock : ℕ) (io : AdmitIo) (now : ℕ) (header : Option Bytes)
    (body : Result EventRequest JsonRejection) (t : Table)
    → History t (ingest p fresh clock io now header body t).1
ingest-History p fresh clock io now header body t =
    elim (Result-cases (prepare p fresh clock header body)) [
      | inl (a, q) ↦
          let after =
            ap (λ x. x.1) (ingest_ok p fresh clock io now header body t a q)
            ∙ submit-admit p io now a t in
          let valid = prepared-IsValidEvent p fresh clock header body a q in
          rw after (next here (admits io now a.event a.key a.fingerprint valid))
      | inr (e, q) ↦ rw (ap (λ x. x.1) (ingest_err p fresh clock io now header body t e q)) here
    ]

run_handler-History :
    {Request : Type 0} (ax : Axum Request) (p : Platform) (m : Moment) (q : Request) (t : Table)
    (h : Handler) (limit : Option ℕ)
    → History t (run_handler ax p m q h limit t).1
unfolding run_handler
run_handler-History ax p m q t health_live limit = here
run_handler-History ax p m q t health_ready limit = here
run_handler-History ax p m q t events_ingest limit =
    ingest-History p m.fresh m.clock m.admit_io m.now (ax.header q) (ax.json limit q) t
run_handler-History ax p m q t events_get limit = here

serve-History :
    {Request : Type 0} (ax : Axum Request) (p : Platform) (m : Moment) (q : Request) (t : Table)
    → History t (serve ax p m q t).1
unfolding serve
serve-History ax p m q t = elim (Option-cases (ax.choose routes q)) [
  | inl e ↦ rw (serve, e) here
  | inr (r, e) ↦ rw (serve, e) (run_handler-History ax p m q t r.handler r.limit)
]

-- So does a step of a worker.
run_job-History :
    (j : Job) (x : Processing) (reply : Reply) (now : ℕ) (w : Worker) (t : Table)
    → History t (run_job j x reply now w t).1
unfolding run_job process_claim
run_job-History j succeeds reply now w t =
    next here (completes reply now j.claimed.event.id w.owner)
run_job-History j fails reply now w t = here
run_job-History j panics reply now w t = here

claim_round-History :
    (reply : Reply) (now : ℕ) (locked : ℕ → Bool) (w : Worker) (t : Table)
    → History t (claim_round reply now locked w t).1
unfolding claim_round
claim_round-History reply now locked w t = elim (Bool-cases (ltb 0 (free_slots w))) [
  | inl e ↦
      rw e (next here (claims reply now locked w.owner (free_slots w) (w.config.lease * 1000)))
  | inr e ↦ rw e here
]

Move-History :
    {w : Worker} {t : Table} {k : ℕ} {v : Worker} {u : Table} → Move w t k v u → History t u
Move-History {w} {t = t} (Move.runs j x reply now found running) = run_job-History j x reply now w t
Move-History (Move.joins j phase found ended) = here
Move-History (Move.nothing_to_join phase) = here
Move-History {w} {t = t} (Move.claims reply now locked k phase more) =
    claim_round-History reply now locked w t
Move-History (Move.shuts_down phase) = here
Move-History (Move.join_wakes j phase found ended) = here
Move-History (Move.sleep_ends phase free) = here
Move-History (Move.drains j phase found ended) = here
Move-History (Move.drained phase no_jobs) = here
Move-History (Move.times_out phase) = here
Move-History (Move.aborts j phase found) = here
Move-History (Move.aborted phase no_jobs) = here
Move-History (Move.others st) = next here st

-- The tables that requests to the server and steps of workers lead to. A worker may be in any state.
pub data Reached {Request : Type 0} (ax : Axum Request) (p : Platform) : Table → Type 0 where
  empty_table : Reached ax p []
  requested :
      {t : Table} (m : Moment) (q : Request) → Reached ax p t → Reached ax p (serve ax p m q t).1
  worked : {t u : Table} {w v : Worker} {k : ℕ} → Reached ax p t → Move w t k v u → Reached ax p u

History-append : {t u v : Table} → History t u → History u v → History t v
History-append h here = h
History-append h (next k st) = next (History-append h k) st

-- Every table that requests to the server, of any kind, and steps of workers lead to, from the empty
-- one, in any order and with any answers of the database, is reached by a history of calls of the
-- store, and is sound.
pub system_refines :
    {Request : Type 0} {ax : Axum Request} {p : Platform} {t : Table}
    → Reached ax p t
    → History [] t × IsSound t
system_refines empty_table = (here, IsSound-empty)
system_refines {ax = ax} {p} (requested {t = t} m q r) =
    let (h, s) = system_refines r in
    let k = serve-History ax p m q t in (History-append h k, History-IsSound k s)
system_refines (worked r m) =
    let (h, s) = system_refines r in
    let k = Move-History m in (History-append h k, History-IsSound k s)
