-- ===== src/Runtime/Drain.antt =====
-- The drain comes to its end if the tasks do.
use pulse_stream.Common.{
  ℕ, ◌+◌, ◌^◌, ◌<◌, inl, inr, false, ◌≡◌, ◌≢◌, refl, ap, ◌∙◌, some, arith, List, [], ◌∷◌,
}
use pulse_stream.Config.{WorkerRuntimeConfig}
use pulse_stream.Event.{WorkerId}
use pulse_stream.Store.Invariant.{IsSound}
use pulse_stream.Runtime.Accounts.{every_claim_counted}
use pulse_stream.Store.Errors.{Reply}
use pulse_stream.Store.Schema.{Table}
use pulse_stream.Runtime.{
  Worker, Job, Stage, draining, stopped, Processing, succeeds, fails, panics, process_claim,
  find_job, remove_job, set_stage, run_job, join_job, start, report,
}
use pulse_stream.Runtime.Moves.{runs, drains, drained, Run, here, next}

add_zero : (n : ℕ) → n + 0 ≡ n
add_zero n = omega arith

find_job-head : (j : Job) (js : List Job) → find_job j.task (j ∷ js) ≡ some j
unfolding find_job
find_job-head j js = ground arith

remove_job-head : (j : Job) (js : List Job) → remove_job j.task (j ∷ js) ≡ js
unfolding remove_job
remove_job-head j js = ground arith

set_stage-head :
    (j : Job) (s : Stage) (js : List Job)
    → set_stage j.task s (j ∷ js) ≡ record j { stage = s } ∷ js
unfolding set_stage
set_stage-head j s js = ground arith

join_job-keeps :
    (j : Job) (w : Worker)
    → ((join_job j w).phase ≡ w.phase)
      × ((join_job j w).timed_out ≡ w.timed_out)
      × ((join_job j w).jobs ≡ remove_job j.task w.jobs)
unfolding join_job
join_job-keeps j w = (refl, refl, refl)

-- A task does not run on after its end.
process_claim-ends :
    (p : Processing) (reply : Reply) (now : ℕ) (w : Worker) (j : Job) (t : Table)
    → (process_claim p reply now w.owner j.claimed w.counters t).0 ≢ Stage.running
unfolding process_claim
process_claim-ends succeeds reply now w j t h = cc
process_claim-ends fails reply now w j t h = cc
process_claim-ends panics reply now w j t h = cc

run_job-keeps :
    (j : Job) (p : Processing) (reply : Reply) (now : ℕ) (w : Worker) (t : Table)
    → ((run_job j p reply now w t).0.phase ≡ w.phase)
      × ((run_job j p reply now w t).0.timed_out ≡ w.timed_out)
      × ((run_job j p reply now w t).0.jobs
          ≡ set_stage j.task (process_claim p reply now w.owner j.claimed w.counters t).0 w.jobs)
unfolding run_job
run_job-keeps j p reply now w t = (refl, refl, refl)

-- What becomes of a task of the set until it can be joined: a running one ends as it is told, with
-- the database's reply to its completion and the time of it.
abbrev pub end_at : Stage → Processing × Reply × ℕ → Job → Worker → Table → Job × Worker × Table
end_at Stage.running (how, reply, now) j w t = (
  record j { stage = (process_claim how reply now w.owner j.claimed w.counters t).0 },
  (run_job j how reply now w t).0,
  (run_job j how reply now w t).1,
)
end_at Stage.finished o j w t = (j, w, t)
end_at Stage.panicked o j w t = (j, w, t)

-- The tasks of a list end and are joined, one after the other; then the drain is over.
abbrev pub finish : (Job → Processing × Reply × ℕ) → List Job → Worker → Table → Worker × Table
finish outcome [] w t = (record w { phase = stopped }, t)
finish outcome (j ∷ js) w t =
    let (i, v, u) = end_at j.stage (outcome j) j w t in finish outcome js (join_job i v) u

-- The first task of the set has ended.
record IsEnded (w : Worker) (t : Table) (js : List Job) (x : Job × Worker × Table) : Type 0 where
  ended : x.0.stage ≢ Stage.running
  run : Run w t 0 x.1 x.2
  same_phase : x.1.phase ≡ w.phase
  same_timeout : x.1.timed_out ≡ w.timed_out
  first : x.1.jobs ≡ x.0 ∷ js

end_at-IsEnded :
    (how : Processing) (reply : Reply) (now : ℕ) (j : Job) (js : List Job) (w : Worker) (t : Table)
    (s : Stage)
    → j.stage ≡ s
    → w.jobs ≡ j ∷ js
    → IsEnded w t js (end_at s (how, reply, now) j w t)
end_at-IsEnded how reply now j js w t Stage.running r e =
    let (same_phase, same_out, staged) = run_job-keeps j how reply now w t in
    let s = (process_claim how reply now w.owner j.claimed w.counters t).0 in
    let found = ap (find_job j.task) e ∙ find_job-head j js in
    record {
      ended = process_claim-ends how reply now w j t;
      run = next 0 here (runs j how reply now found r) (omega arith);
      same_phase = same_phase;
      same_timeout = same_out;
      first = staged ∙ ap (set_stage j.task s) e ∙ set_stage-head j s js;
    }
end_at-IsEnded how reply now j js w t Stage.finished r e = record {
  ended = λ h. cc;
  run = here;
  same_phase = refl;
  same_timeout = refl;
  first = e;
}
end_at-IsEnded how reply now j js w t Stage.panicked r e = record {
  ended = λ h. cc;
  run = here;
  same_phase = refl;
  same_timeout = refl;
  first = e;
}

-- The worker stops by its drain.
record StopsInTime (w : Worker) (t : Table) (x : Worker × Table) : Type 0 where
  run : Run w t 0 x.0 x.1
  stops : x.0.phase ≡ stopped
  empty : x.0.jobs ≡ []
  same_timeout : x.0.timed_out ≡ w.timed_out

runs_on :
    {w : Worker} {t : Table} {n : ℕ} {v : Worker} {u : Table} {m : ℕ} {x : Worker} {y : Table}
    → Run w t n v u
    → Run v u m x y
    → Run w t (n + m) x y
runs_on {n} r here = rw (add_zero n) r
runs_on {n} r (next {n = a} {k} m q last e) = next (n + m) (runs_on r q) last (omega (arith, e))

-- A task that has ended is joined.
joined :
    {w : Worker} {t : Table} (i : Job) (js : List Job) (v : Worker) (u : Table)
    → w.phase ≡ draining
    → IsEnded w t js (i, v, u)
    → Run w t 0 (join_job i v) u
      × ((join_job i v).phase ≡ draining)
      × ((join_job i v).timed_out ≡ w.timed_out)
      × ((join_job i v).jobs ≡ js)
joined i js v u p d =
    let (same_phase, same_out, fewer) = join_job-keeps i v in
    let found = ap (find_job i.task) d.first ∙ find_job-head i js in
    (
      next 0 d.run (drains i (d.same_phase ∙ p) found d.ended) (omega arith),
      same_phase ∙ d.same_phase ∙ p,
      same_out ∙ d.same_timeout,
      fewer ∙ ap (remove_job i.task) d.first ∙ remove_job-head i js,
    )

finish-StopsInTime :
    (outcome : Job → Processing × Reply × ℕ) (js : List Job) (w : Worker) (t : Table)
    → w.phase ≡ draining
    → w.jobs ≡ js
    → StopsInTime w t (finish outcome js w t)
finish-StopsInTime outcome [] w t p e = record {
  run = next 0 here (drained p e) (omega arith);
  stops = refl;
  empty = e;
  same_timeout = refl;
}
finish-StopsInTime outcome (j ∷ js) w t p e =
    let (how, reply, now) = outcome j in
    let (i, v, u) = end_at j.stage (outcome j) j w t in
    let (run, q, same_out, left) =
      joined i js v u p (end_at-IsEnded how reply now j js w t j.stage refl e) in
    let rest = finish-StopsInTime outcome js (join_job i v) u q left in
    record {
      run = runs_on run rest.run;
      stops = rest.stops;
      empty = rest.empty;
      same_timeout = rest.same_timeout ∙ same_out;
    }

-- From any draining worker that a run from the start on a sound table reaches, before a timeout and
-- with fewer than 2^64 events returned by its claims: let each task that still runs succeed, fail
-- or panic, with whatever answer of the database to its completion, as `outcome` says, and let the
-- tasks end and be joined one after the other. These are steps of the worker that go on from where
-- it is; they stop it with no task left and none abandoned, and the processed, the failed and the
-- lost events together are as many as the claims have returned.
pub shutdown_completes :
    (outcome : Job → Processing × Reply × ℕ) (task_ids : ℕ → ℕ) (owner : WorkerId)
    (config : WorkerRuntimeConfig) (t : Table) {n : ℕ} {w : Worker} {u : Table}
    → n < 2 ^ 64
    → IsSound t
    → Run (start task_ids owner config) t n w u
    → w.phase ≡ draining
    → w.timed_out ≡ false
    → let (v, y) = finish outcome w.jobs w u in
      Run w u 0 v y
      × (v.phase ≡ stopped)
      × (v.jobs ≡ [])
      × ((report v).timed_out ≡ false)
      × ((report v).abandoned ≡ 0)
      × ((report v).processed + (report v).failed + (report v).lost_claims ≡ n)
unfolding report
shutdown_completes outcome task_ids owner config t {n} {w} {u} h s r p not_out =
    let x = finish-StopsInTime outcome w.jobs w u p refl in
    let whole = rw (add_zero n) at (runs_on r x.run) in
    elim (every_claim_counted task_ids owner config t h s whole x.stops) [
      | inl (out, none_left, counted) ↦ (x.run, x.stops, x.empty, out, none_left, counted)
      | inr (out, most, least) ↦ let same = x.same_timeout ∙ not_out in cc (same, out)
    ]
