-- ===== src/Runtime/Jobs.antt =====
-- The set of tasks: its size, and the tasks that no counter shows yet.
use pulse_stream.Common.{ℕ, ◌+◌, ◌≤◌, ◌≡◌, refl, length, some, arith, List, [], ◌∷◌}
use pulse_stream.Store.Claim.{ClaimedEvent}
use pulse_stream.Runtime.{Job, Stage, Worker, spawn, spawn_all, find_job, remove_job, set_stage}

-- A task is counted when it finishes, or when the join of its panic is recorded.
abbrev pub is_open : Stage → ℕ
is_open Stage.running = 1
is_open Stage.finished = 0
is_open Stage.panicked = 1

abbrev pub open_jobs : List Job → ℕ
open_jobs [] = 0
open_jobs (j ∷ js) = is_open j.stage + open_jobs js

pub open_jobs-le : (js : List Job) → open_jobs js ≤ length js
open_jobs-le [] = omega arith
open_jobs-le (j ∷ js) = ground (arith, open_jobs-le js)

pub length-remove_job :
    (id : ℕ) (js : List Job) (j : Job)
    → find_job id js ≡ some j
    → length (remove_job id js) + 1 ≡ length js
unfolding find_job remove_job
length-remove_job id [] j h = cc
length-remove_job id (i ∷ js) j h = ground (arith, length-remove_job id js j)

pub open_jobs-remove_job :
    (id : ℕ) (js : List Job) (j : Job)
    → find_job id js ≡ some j
    → open_jobs (remove_job id js) + is_open j.stage ≡ open_jobs js
unfolding find_job remove_job
open_jobs-remove_job id [] j h = cc
open_jobs-remove_job id (i ∷ js) j h = ground (arith, open_jobs-remove_job id js j)

pub length-set_stage : (id : ℕ) (s : Stage) (js : List Job) → length (set_stage id s js) ≡ length js
unfolding set_stage
length-set_stage id s [] = refl
length-set_stage id s (i ∷ js) = ground (arith, length-set_stage id s js)

pub open_jobs-set_stage :
    (id : ℕ) (s : Stage) (js : List Job) (j : Job)
    → find_job id js ≡ some j
    → open_jobs (set_stage id s js) + is_open j.stage ≡ open_jobs js + is_open s
unfolding find_job set_stage
open_jobs-set_stage id s [] j h = cc
open_jobs-set_stage id s (i ∷ js) j h = ground (arith, open_jobs-set_stage id s js j)

-- What spawning leaves alone.
pub record SameShell (v w : Worker) : Type 0 where
  pub owner : v.owner ≡ w.owner
  pub config : v.config ≡ w.config
  pub counters : v.counters ≡ w.counters
  pub phase : v.phase ≡ w.phase
  pub timed_out : v.timed_out ≡ w.timed_out
  pub abandoned : v.abandoned ≡ w.abandoned

pub spawn_all_lem :
    (cs : List ClaimedEvent) (w : Worker)
    → SameShell (spawn_all cs w) w
      × (length (spawn_all cs w).jobs ≡ length cs + length w.jobs)
      × (open_jobs (spawn_all cs w).jobs ≡ length cs + open_jobs w.jobs)
unfolding spawn_all
spawn_all_lem [] w = (
  record {
    owner = refl;
    config = refl;
    counters = refl;
    phase = refl;
    timed_out = refl;
    abandoned = refl;
  },
  omega arith,
  omega arith,
)
spawn_all_lem (c ∷ cs) w =
    let (s, l, o) = spawn_all_lem cs (spawn c w) in
    (
      record {
        owner = s.owner;
        config = s.config;
        counters = s.counters;
        phase = s.phase;
        timed_out = s.timed_out;
        abandoned = s.abandoned;
      },
      omega (arith, l),
      omega (arith, o),
    )
