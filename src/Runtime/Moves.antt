-- ===== src/Runtime/Moves.antt =====
-- The steps of a worker, between those of the rest of the system.
use pulse_stream.Common.{
  ℕ, ◌+◌, ◌*◌, ◌≡◌, ◌≢◌, Bool, true, ltb, if◌then◌else◌, some, ok, err, [], length,
}
use pulse_stream.Store.Errors.{Reply}
use pulse_stream.Store.Schema.{Table}
use pulse_stream.Store.Claim.{claim}
use pulse_stream.Store.History.{Step}
use pulse_stream.Runtime.{
  Worker, Job, Stage, joining, claiming, waiting, draining, aborting, stopped, Processing,
  claim_round, free_slots, slot_free, find_job, remove_job, run_job, join_job, give_up,
}

-- The number of events that the claim of a round returns to the loop: none if there is no free slot,
-- or if the claim fails.
unfoldable pub received : Reply → ℕ → (ℕ → Bool) → Worker → Table → ℕ
unfolding claim free_slots
received reply now locked w table =
    if ltb 0 (free_slots w)
    then elim (claim reply now locked w.owner (free_slots w) (w.config.lease * 1000) table).0 [
      | ok cs ↦ length cs
      | err e ↦ 0
    ]
    else 0

-- `Move w t k v u`: from the worker `w` and the table `t` to `v` and `u`, with `k` events that a
-- claim has returned.
pub data Move (w : Worker) (t : Table) : ℕ → Worker → Table → Type 0 where
  -- A task ends, at any point of the loop or of the shutdown.
  runs :
      (j : Job) (p : Processing) (reply : Reply) (now : ℕ)
      → find_job j.task w.jobs ≡ some j
      → j.stage ≡ Stage.running
      → Move w t 0 (run_job j p reply now w t).0 (run_job j p reply now w t).1
  -- The loop joins the tasks that have ended.
  joins :
      (j : Job)
      → w.phase ≡ joining
      → find_job j.task w.jobs ≡ some j
      → j.stage ≢ Stage.running
      → Move w t 0 (join_job j w) t
  nothing_to_join : w.phase ≡ joining → Move w t 0 (record w { phase = claiming }) t
  claims :
      (reply : Reply) (now : ℕ) (locked : ℕ → Bool) (k : ℕ)
      → w.phase ≡ claiming
      → received reply now locked w t ≡ k
      → Move w t k
          (record (claim_round reply now locked w t).0 { phase = waiting })
          (claim_round reply now locked w t).1
  -- The branches of `select!`.
  shuts_down : w.phase ≡ waiting → Move w t 0 (record w { phase = draining }) t
  join_wakes :
      (j : Job)
      → w.phase ≡ waiting
      → find_job j.task w.jobs ≡ some j
      → j.stage ≢ Stage.running
      → Move w t 0 (record (join_job j w) { phase = joining }) t
  sleep_ends : w.phase ≡ waiting → slot_free w ≡ true → Move w t 0 (record w { phase = joining }) t
  -- The drain, which ends when no task is left or when its time is over.
  drains :
      (j : Job)
      → w.phase ≡ draining
      → find_job j.task w.jobs ≡ some j
      → j.stage ≢ Stage.running
      → Move w t 0 (join_job j w) t
  drained : w.phase ≡ draining → w.jobs ≡ [] → Move w t 0 (record w { phase = stopped }) t
  times_out : w.phase ≡ draining → Move w t 0 (give_up w) t
  -- `JoinSet::shutdown` drops a task, ended or not, without recording it.
  aborts :
      (j : Job)
      → w.phase ≡ aborting
      → find_job j.task w.jobs ≡ some j
      → Move w t 0 (record w { jobs = remove_job j.task w.jobs }) t
  aborted : w.phase ≡ aborting → w.jobs ≡ [] → Move w t 0 (record w { phase = stopped }) t
  -- Another process uses the table.
  others : {u : Table} → Step t u → Move w t 0 w u

-- A run from `w` and `t`, with the number of events that its claims have returned.
pub data Run (w : Worker) (t : Table) : ℕ → Worker → Table → Type 0 where
  here : Run w t 0 w t
  next :
      {n k : ℕ} {v x : Worker} {u y : Table} (m : ℕ)
      → Run w t n v u
      → Move v u k x y
      → m ≡ n + k
      → Run w t m x y
