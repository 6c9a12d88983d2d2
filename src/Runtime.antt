-- ===== src/Runtime.antt =====
-- crates/pulsestream-worker/src/runtime.rs: the worker's loop, its tasks and its shutdown.
pub mod Moves
pub mod Jobs
pub mod Capacity
pub mod Accounts
pub mod Drain
use pulse_stream.Common.{
  ℕ, suc, ◌+◌, ◌-◌, ◌*◌, ◌%◌, ◌^◌, Bool, true, false, length, ltb, ◌==◌, if◌then◌else◌, Option,
  none, some, Result, ok, err, List, [], ◌∷◌,
}
use pulse_stream.Config.{WorkerRuntimeConfig}
use pulse_stream.Event.{Event, EventId, WorkerId}
use pulse_stream.Store.Errors.{StoreError, Reply}
use pulse_stream.Store.Schema.{Table}
use pulse_stream.Store.Claim.{ClaimedEvent, claim}
use pulse_stream.Store.Complete.{complete}

pub record RunReport : Type 0 where
  pub processed : ℕ
  pub failed : ℕ
  pub lost_claims : ℕ
  pub timed_out : Bool
  pub abandoned : ℕ

pub record Counters : Type 0 where
  pub processed : ℕ
  pub failed : ℕ
  pub lost_claims : ℕ

-- `fetch_add(1)` on an `AtomicU64`.
unfoldable pub bump : ℕ → ℕ
bump n = (n + 1) % 2 ^ 64

-- What the future of a task has come to; a task leaves the `JoinSet` when it is joined.
pub data Stage : Type 0 where
  running finished panicked : Stage

-- `task` tells the tasks of the set apart, and `id` is the identity that tokio gives to the task.
pub record Job : Type 0 where
  pub task : ℕ
  pub id : ℕ
  pub claimed : ClaimedEvent
  pub stage : Stage

-- Where `run` stands: at `try_join_next`, at the claim, at `select!`, in the drain after shutdown,
-- in `JoinSet::shutdown`, or at its end.
pub data Phase : Type 0 where
  joining claiming waiting draining aborting stopped : Phase

-- The variables of `run`: its `JoinSet` and its `HashMap` of running tasks, newest first.
-- `next_task` counts the tasks that were spawned, and `task_ids` gives the identity that tokio
-- chooses for each of them; nothing is asked of it.
pub record Worker : Type 0 where
  pub owner : WorkerId
  pub config : WorkerRuntimeConfig
  pub jobs : List Job
  pub running : List (ℕ × EventId)
  pub counters : Counters
  pub database_available : Bool
  pub next_task : ℕ
  pub task_ids : ℕ → ℕ
  pub phase : Phase
  pub timed_out : Bool
  pub abandoned : ℕ

unfoldable pub start : (ℕ → ℕ) → WorkerId → WorkerRuntimeConfig → Worker
start task_ids owner config = record {
  owner = owner;
  config = config;
  jobs = [];
  running = [];
  counters = record { processed = 0; failed = 0; lost_claims = 0 };
  database_available = true;
  next_task = 0;
  task_ids = task_ids;
  phase = joining;
  timed_out = false;
  abandoned = 0;
}

-- `HashMap::remove` and `HashMap::insert`, on the list of the entries.
unfoldable pub remove_key : ℕ → List (ℕ × EventId) → List (ℕ × EventId)
remove_key k [] = []
remove_key k (e ∷ m) = if e.0 == k then m else e ∷ remove_key k m

unfoldable pub insert_key : ℕ → EventId → List (ℕ × EventId) → List (ℕ × EventId)
unfolding remove_key
insert_key k v m = (k, v) ∷ remove_key k m

-- The result of a join: the task's identity, or a `JoinError` with it.
pub data Joined : Type 0 where
  completed join_panic join_cancelled : ℕ → Joined

unfoldable pub record_join : Joined → List (ℕ × EventId) × Counters → List (ℕ × EventId) × Counters
unfolding remove_key bump
record_join (completed id) (m, c) = (remove_key id m, c)
record_join (join_panic id) (m, c) = (remove_key id m, record c { failed = bump c.failed })
record_join (join_cancelled id) (m, c) = (remove_key id m, c)

-- What the processor does with an event.
pub data Processing : Type 0 where
  succeeds fails panics : Processing

-- `AcknowledgeProcessor::process`, of crates/pulsestream-worker/src/processor.rs.
unfoldable pub acknowledge : Event → Processing
acknowledge event = succeeds

-- The match on the answer of `complete`.
unfoldable pub count_completion : Result Bool StoreError → Counters → Counters
unfolding bump
count_completion (ok true) c = record c { processed = bump c.processed }
count_completion (ok false) c = record c { lost_claims = bump c.lost_claims }
count_completion (err e) c = record c { failed = bump c.failed }

-- `process_claim`, run as a task: the stage that the task comes to, the counters and the table.
unfoldable pub process_claim :
    Processing → Reply → ℕ → WorkerId → ClaimedEvent → Counters → Table → Stage × Counters × Table
unfolding count_completion complete
process_claim succeeds reply now owner c counters table =
    let (answer, after) = complete reply now c.event.id owner table in
    (finished, count_completion answer counters, after)
process_claim fails reply now owner c counters table =
    (finished, record counters { failed = bump counters.failed }, table)
process_claim panics reply now owner c counters table = (panicked, counters, table)

unfoldable pub spawn : ClaimedEvent → Worker → Worker
unfolding insert_key
spawn c w = record w {
  jobs =
      record { task = w.next_task; id = w.task_ids w.next_task; claimed = c; stage = Stage.running }
      ∷ w.jobs;
  running = insert_key (w.task_ids w.next_task) c.event.id w.running;
  next_task = w.next_task + 1;
}

-- The `for` loop over the claims.
unfoldable pub spawn_all : List ClaimedEvent → Worker → Worker
unfolding spawn
spawn_all [] w = w
spawn_all (c ∷ cs) w = spawn_all cs (spawn c w)

-- The match on the answer of `claim`.
unfoldable pub take_claims : Result (List ClaimedEvent) StoreError → Worker → Worker
unfolding spawn_all
take_claims (ok cs) w = spawn_all cs (record w { database_available = true })
take_claims (err e) w = record w { database_available = false }

unfoldable pub free_slots : Worker → ℕ
free_slots w = w.config.concurrency - length w.jobs

-- The claim of one round; a lease is given to the store in microseconds.
unfoldable pub claim_round : Reply → ℕ → (ℕ → Bool) → Worker → Table → Worker × Table
unfolding take_claims free_slots claim
claim_round reply now locked w table =
    if ltb 0 (free_slots w)
    then (let (claims, after) =
          claim reply now locked w.owner (free_slots w) (w.config.lease * 1000) table in
        (take_claims claims w, after))
    else (w, table)

unfoldable pub slot_free : Worker → Bool
slot_free w = ltb (length w.jobs) w.config.concurrency

-- A task of the set, and the set without it.
unfoldable pub find_job : ℕ → List Job → Option Job
find_job id [] = none
find_job id (j ∷ js) = if j.task == id then some j else find_job id js

unfoldable pub remove_job : ℕ → List Job → List Job
remove_job id [] = []
remove_job id (j ∷ js) = if j.task == id then js else j ∷ remove_job id js

unfoldable pub set_stage : ℕ → Stage → List Job → List Job
set_stage id s [] = []
set_stage id s (j ∷ js) =
    if j.task == id then record j { stage = s } ∷ js else j ∷ set_stage id s js

-- A task runs to its end while the loop waits or works.
unfoldable pub run_job : Job → Processing → Reply → ℕ → Worker → Table → Worker × Table
unfolding process_claim set_stage
run_job j p reply now w table =
    let (stage, counters, after) = process_claim p reply now w.owner j.claimed w.counters table in
    (record w { jobs = set_stage j.task stage w.jobs; counters = counters }, after)

unfoldable pub joined_of : Job → Joined
joined_of j = elim j.stage [
  | panicked ↦ join_panic j.id
  | finished ↦ completed j.id
  | running ↦ completed j.id
]

-- `try_join_next_with_id` or `join_next_with_id`, and `record_join`.
unfoldable pub join_job : Job → Worker → Worker
unfolding joined_of record_join remove_job
join_job j w =
    let (m, c) = record_join (joined_of j) (w.running, w.counters) in
    record w { jobs = remove_job j.task w.jobs; running = m; counters = c }

-- The shutdown timeout.
unfoldable pub give_up : Worker → Worker
give_up w = record w { phase = aborting; timed_out = true; abandoned = length w.jobs }

unfoldable pub report : Worker → RunReport
report w = record {
  processed = w.counters.processed;
  failed = w.counters.failed;
  lost_claims = w.counters.lost_claims;
  timed_out = w.timed_out;
  abandoned = w.abandoned;
}
