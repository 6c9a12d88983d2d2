-- ===== src/Runtime/Capacity.antt =====
-- The worker never holds more tasks than its concurrency.
use pulse_stream.Common.{
  ℕ, ◌+◌, ◌*◌, ◌≤◌, ◌≡◌, ◌⊎◌, refl, Bool, true, false, inl, inr, length, ltb, Bool-cases,
  Result-cases, some, arith, List,
}
use pulse_stream.Config.{WorkerRuntimeConfig}
use pulse_stream.Event.{WorkerId}
use pulse_stream.Store.Errors.{Reply}
use pulse_stream.Store.Schema.{Table}
use pulse_stream.Store.Invariant.{IsSound}
use pulse_stream.Store.Claim.{ClaimedEvent, claim}
use pulse_stream.Store.Claim.Keeps.{claim-IsSound}
use pulse_stream.Store.Claim.Bound.{length-claim-le_any}
use pulse_stream.Store.Complete.Keeps.{complete-IsSound}
use pulse_stream.Store.History.{Step-IsSound}
use pulse_stream.Runtime.{
  Worker, Job, Processing, succeeds, fails, panics, take_claims, spawn_all, claim_round, free_slots,
  find_job, run_job, join_job, give_up, start,
}
use pulse_stream.Runtime.Moves.{
  received, Move, runs, joins, nothing_to_join, claims, shuts_down, join_wakes, sleep_ends, drains,
  drained, times_out, aborts, aborted, others, Run, here, next,
}
use pulse_stream.Runtime.Jobs.{length-remove_job, length-set_stage, spawn_all_lem}

-- The table is sound and the tasks fit the capacity; the configuration does not change.
pub record Fits (capacity : ℕ) (w : Worker) (t : Table) : Type 0 where
  pub sound : IsSound t
  pub config : w.config.concurrency ≡ capacity
  pub room : length w.jobs ≤ capacity

module _ (reply : Reply) (now : ℕ) (locked : ℕ → Bool) (w : Worker) (t : Table) where
  claim_round-IsSound : IsSound t → IsSound (claim_round reply now locked w t).1
  unfolding claim_round
  claim_round-IsSound s = elim (Bool-cases (ltb 0 (free_slots w))) [
    | inl e ↦
        rw e (claim-IsSound reply now locked w.owner (free_slots w) (w.config.lease * 1000) t s)
    | inr e ↦ rw e s
  ]

  -- A round spawns one task for each event that its claim returns.
  pub claim_round_cases :
      IsSound t
      → (((claim_round reply now locked w t).0 ≡ w) × (received reply now locked w t ≡ 0))
        ⊎ (((claim_round reply now locked w t).0 ≡ record w { database_available = false })
            × (received reply now locked w t ≡ 0))
        ⊎ ((cs : List ClaimedEvent) × ((claim_round reply now locked w t).0
              ≡ spawn_all cs (record w { database_available = true }))
            × (length cs ≤ free_slots w)
            × (received reply now locked w t ≡ length cs))
  unfolding claim_round received
  claim_round_cases s = elim (Bool-cases (ltb 0 (free_slots w))) [
    | inr e ↦ inl (rw e refl, rw e refl)
    | inl e ↦
        elim (Result-cases
          (claim reply now locked w.owner (free_slots w) (w.config.lease * 1000) t).0) [
            | inr (f, q) ↦ inr (inl (rw e (rw (q, take_claims)), rw e (rw q refl)))
            | inl (cs, q) ↦ inr (
                inr (
                  cs,
                  rw e (rw (q, take_claims)),
                  length-claim-le_any reply now locked w.owner (free_slots w)
                      (w.config.lease * 1000) t s q,
                  rw e (rw q refl),
                ))
          ]
  ]

  claim_round-Fits :
      {capacity : ℕ}
      → Fits capacity w t
      → Fits capacity (claim_round reply now locked w t).0 (claim_round reply now locked w t).1
  unfolding free_slots
  claim_round-Fits f = elim (claim_round_cases f.sound) [
    | inl (e, z) ↦ record {
      sound = claim_round-IsSound f.sound;
      config = rw e f.config;
      room = rw e f.room;
    }
    | inr (inl (e, z)) ↦ record {
      sound = claim_round-IsSound f.sound;
      config = rw e f.config;
      room = rw e f.room;
    }
    | inr (inr (cs, e, l, z)) ↦
        let (same, n, o) = spawn_all_lem cs (record w { database_available = true }) in
        record {
          sound = claim_round-IsSound f.sound;
          config = rw (e, same.config) f.config;
          room = rw (e, n) (omega (arith, l, f.room, f.config));
        }
  ]

run_job-IsSound :
    (j : Job) (p : Processing) (reply : Reply) (now : ℕ) (w : Worker) (t : Table)
    → IsSound t
    → IsSound (run_job j p reply now w t).1
unfolding run_job
run_job-IsSound j succeeds reply now w t s =
    complete-IsSound reply now j.claimed.event.id w.owner t s
run_job-IsSound j fails reply now w t s = s
run_job-IsSound j panics reply now w t s = s

run_job-Fits :
    {capacity : ℕ} (j : Job) (p : Processing) (reply : Reply) (now : ℕ) (w : Worker) (t : Table)
    → Fits capacity w t
    → Fits capacity (run_job j p reply now w t).0 (run_job j p reply now w t).1
run_job-Fits j p reply now w t f = record {
  sound = run_job-IsSound j p reply now w t f.sound;
  config = unfold run_job in f.config;
  room = unfold run_job in rw length-set_stage f.room;
}

join_job-Fits :
    {capacity : ℕ} (j : Job) (w : Worker) (t : Table)
    → find_job j.task w.jobs ≡ some j
    → Fits capacity w t
    → Fits capacity (join_job j w) t
unfolding join_job
join_job-Fits j w t h f = record {
  sound = f.sound;
  config = f.config;
  room = omega (arith, length-remove_job j.task w.jobs j h, f.room);
}

Move-Fits :
    {capacity : ℕ} {w : Worker} {t : Table} {k : ℕ} {v : Worker} {u : Table}
    → Move w t k v u
    → Fits capacity w t
    → Fits capacity v u
Move-Fits {w} {t} (runs j p reply now h r) f = run_job-Fits j p reply now w t f
Move-Fits {w} {t} (joins j e h r) f = join_job-Fits j w t h f
Move-Fits (nothing_to_join e) f = record { sound = f.sound; config = f.config; room = f.room }
Move-Fits {w} {t} (claims reply now locked k e l) f =
    let g = claim_round-Fits reply now locked w t f in
    record { sound = g.sound; config = g.config; room = g.room }
Move-Fits (shuts_down e) f = record { sound = f.sound; config = f.config; room = f.room }
Move-Fits {w} {t} (join_wakes j e h r) f =
    let g = join_job-Fits j w t h f in record { sound = g.sound; config = g.config; room = g.room }
Move-Fits (sleep_ends e b) f = record { sound = f.sound; config = f.config; room = f.room }
Move-Fits {w} {t} (drains j e h r) f = join_job-Fits j w t h f
Move-Fits (drained e z) f = record { sound = f.sound; config = f.config; room = f.room }
Move-Fits (times_out e) f = record {
  sound = f.sound;
  config = unfold give_up in f.config;
  room = unfold give_up in f.room;
}
Move-Fits {w} (aborts j e h) f = record {
  sound = f.sound;
  config = f.config;
  room = omega (arith, length-remove_job j.task w.jobs j h, f.room);
}
Move-Fits (aborted e z) f = record { sound = f.sound; config = f.config; room = f.room }
Move-Fits (others st) f = record {
  sound = Step-IsSound st f.sound;
  config = f.config;
  room = f.room;
}

pub Run-Fits :
    {capacity : ℕ} {w : Worker} {t : Table} {n : ℕ} {v : Worker} {u : Table}
    → Run w t n v u
    → Fits capacity w t
    → Fits capacity v u
Run-Fits here f = f
Run-Fits (next m r mv e) f = Move-Fits mv (Run-Fits r f)

pub start-Fits :
    (task_ids : ℕ → ℕ) (owner : WorkerId) (config : WorkerRuntimeConfig) (t : Table)
    → IsSound t
    → Fits config.concurrency (start task_ids owner config) t
unfolding start
start-Fits task_ids owner config t s = record { sound = s; config = refl; room = omega arith }

-- At any point of any run from the start on a sound table, the worker has at most `concurrency`
-- tasks, and these and the free slots together are the concurrency: the subtraction in the loop
-- never underflows.
pub never_over_capacity :
    (task_ids : ℕ → ℕ) (owner : WorkerId) (config : WorkerRuntimeConfig) (t : Table) {n : ℕ}
    {w : Worker} {u : Table}
    → IsSound t
    → Run (start task_ids owner config) t n w u
    → (length w.jobs ≤ config.concurrency) × (length w.jobs + free_slots w ≡ config.concurrency)
unfolding free_slots
never_over_capacity task_ids owner config t s r =
    let f = Run-Fits r (start-Fits task_ids owner config t s) in
    (f.room, omega (arith, f.room, f.config))
