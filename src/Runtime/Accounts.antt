-- ===== src/Runtime/Accounts.antt =====
-- Every event that a claim returns is accounted for in the report.
mod Tasks
mod Rounds
use pulse_stream.Common.{
  ℕ, ◌+◌, ◌^◌, ◌≤◌, ◌<◌, ◌≡◌, ◌≢◌, ◌⊎◌, refl, ap, Bool, true, false, inl, inr, length, some, Result,
  arith, List, [],
}
use pulse_stream.Config.{WorkerRuntimeConfig}
use pulse_stream.Event.{EventId, WorkerId}
use pulse_stream.Store.Errors.{Reply, StoreError}
use pulse_stream.Store.Schema.{Table}
use pulse_stream.Store.Invariant.{IsSound}
use pulse_stream.Store.Complete.{complete}
use pulse_stream.Runtime.{
  Worker, Job, Stage, Phase, joining, claiming, waiting, draining, aborting, stopped, Counters,
  Processing, succeeds, fails, panics, bump, count_completion, process_claim, claim_round, find_job,
  set_stage, joined_of, record_join, remove_job, run_job, join_job, give_up, start, report,
}
use pulse_stream.Runtime.Moves.{
  Move, runs, joins, nothing_to_join, claims, shuts_down, join_wakes, sleep_ends, drains, drained,
  times_out, aborts, aborted, others, Run, here, next,
}
use pulse_stream.Runtime.Jobs.{
  is_open, open_jobs, open_jobs-le, open_jobs-remove_job, open_jobs-set_stage, spawn_all_lem,
  SameShell,
}
use pulse_stream.Runtime.Capacity.{Fits, Run-Fits, start-Fits, claim_round_cases}
use pulse_stream.Runtime.Accounts.Tasks.{
  total, is_live, Accounts, run_job-Accounts, join_job-Accounts,
}
use pulse_stream.Runtime.Accounts.Rounds.{
  Accounts-moves, Accounts-spawns, claim_round-spawns, Accounts-stops, give_up-Accounts,
  abort-Accounts,
}

extend : {n : ℕ} {w : Worker} → Accounts n w → Accounts (n + 0) w
extend {n} a = let same : n + 0 ≡ n = omega arith in rw same a

room : {n : ℕ} → n + 0 < 2 ^ 64 → n < 2 ^ 64
room h = omega (arith, h)

Move-Accounts :
    {n : ℕ} {w : Worker} {t : Table} {k : ℕ} {v : Worker} {u : Table}
    → Move w t k v u
    → n + k < 2 ^ 64
    → IsSound t
    → Accounts n w
    → Accounts (n + k) v
Move-Accounts {w} {t} (runs j p reply now f r) h s a =
    extend (run_job-Accounts j p reply now w t (room h) f r a)
Move-Accounts {w} (joins j e f r) h s a = extend (join_job-Accounts j w (room h) f r a)
Move-Accounts {w} (nothing_to_join e) h s a = extend (Accounts-moves claiming w (rw e refl) refl a)
Move-Accounts {w} {t} (claims reply now locked k e l) h s a =
    let (same, o) = claim_round-spawns reply now locked w t k s l in
    let b = Accounts-spawns k (claim_round reply now locked w t).0 w same o (rw e refl) a in
    Accounts-moves waiting (claim_round reply now locked w t).0 (rw (same.phase, e) refl) refl b
Move-Accounts {w} (shuts_down e) h s a = extend (Accounts-moves draining w (rw e refl) refl a)
Move-Accounts {w} (join_wakes j e f r) h s a = extend (
    Accounts-moves joining (join_job j w) (unfold join_job in rw e refl) refl
      (join_job-Accounts j w (room h) f r a))
Move-Accounts {w} (sleep_ends e b) h s a = extend (Accounts-moves joining w (rw e refl) refl a)
Move-Accounts {w} (drains j e f r) h s a = extend (join_job-Accounts j w (room h) f r a)
Move-Accounts {w} (drained e z) h s a = extend (Accounts-stops w z a)
Move-Accounts {w} (times_out e) h s a = extend (give_up-Accounts w (rw e refl) a)
Move-Accounts {w} (aborts j e f) h s a = extend (abort-Accounts j w e f a)
Move-Accounts {w} (aborted e z) h s a = extend (Accounts-stops w z a)
Move-Accounts (others st) h s a = extend (a)

Run-Accounts :
    {capacity : ℕ} {w : Worker} {t : Table} {n : ℕ} {v : Worker} {u : Table}
    → Run w t n v u
    → n < 2 ^ 64
    → Fits capacity w t
    → Accounts 0 w
    → Accounts n v
Run-Accounts here h f a = a
Run-Accounts (next {n} {k} m r mv e) h f a =
    let b = Run-Accounts r (omega (arith, e, h)) f a in
    rw e (Move-Accounts mv (omega (arith, e, h)) (Run-Fits r f).sound b)

start-Accounts :
    (task_ids : ℕ → ℕ) (owner : WorkerId) (config : WorkerRuntimeConfig)
    → Accounts 0 (start task_ids owner config)
unfolding start
start-Accounts task_ids owner config = record {
  at_most = omega arith;
  at_least = inl (refl, refl, refl, omega arith);
}

-- At the end of any run on a sound table whose claims have returned fewer than 2^64 events to the
-- worker, whatever identities tokio gives to the tasks. After a drain in time no event is abandoned,
-- and the events that claims returned are as many as the processed, the failed and the lost ones
-- together. After a shutdown timeout the counters together show at most the returned events, and
-- with the abandoned ones at least these. An event whose claim was committed but answered with an
-- error is not returned, and not among them.
pub every_claim_counted :
    (task_ids : ℕ → ℕ) (owner : WorkerId) (config : WorkerRuntimeConfig) (t : Table) {n : ℕ}
    {w : Worker} {u : Table}
    → n < 2 ^ 64
    → IsSound t
    → Run (start task_ids owner config) t n w u
    → w.phase ≡ stopped
    → (((report w).timed_out ≡ false)
        × ((report w).abandoned ≡ 0)
        × ((report w).processed + (report w).failed + (report w).lost_claims ≡ n))
      ⊎ (((report w).timed_out ≡ true)
          × ((report w).processed + (report w).failed + (report w).lost_claims ≤ n)
          × (n
              ≤ (report w).processed
                + (report w).failed
                + (report w).lost_claims
                + (report w).abandoned))
unfolding report
every_claim_counted task_ids owner config t {w} h s r e =
    let a =
      Run-Accounts r h (start-Fits task_ids owner config t s)
        (start-Accounts task_ids owner config) in
    let dead : is_live w.phase ≡ false = rw e refl in
    elim a.at_least [
      | inl (live, none_left, not_out, m) ↦ cc
      | inr (d, m, inl out) ↦ inr (out, omega (arith, a.at_most), m)
      | inr (d, m, inr (not_out, none_left)) ↦
          inl (not_out, none_left, omega (arith, m, a.at_most, none_left))
    ]
