-- ===== src/Runtime/Accounts/Tasks.antt =====
-- What the report and the open tasks say of the claimed events, and a task's end and its join.
use pulse_stream.Common.{
  ℕ, ◌+◌, ◌^◌, ◌≤◌, ◌<◌, ◌≡◌, ◌≢◌, ◌⊎◌, refl, ap, Bool, true, false, inl, inr, some, Result, arith,
  List,
}
use pulse_stream.Event.{EventId}
use pulse_stream.Store.Errors.{Reply, StoreError}
use pulse_stream.Store.Schema.{Table}
use pulse_stream.Store.Complete.{complete}
use pulse_stream.Runtime.{
  Worker, Job, Stage, Phase, joining, claiming, waiting, draining, aborting, stopped, Counters,
  Processing, succeeds, fails, panics, bump, count_completion, process_claim, find_job, set_stage,
  joined_of, record_join, remove_job, run_job, join_job,
}
use pulse_stream.Runtime.Jobs.{is_open, open_jobs, open_jobs-remove_job, open_jobs-set_stage}

abbrev pub total : Counters → ℕ
total c = c.processed + c.failed + c.lost_claims

-- In the loop and the drain each task is in a counter or open; after the shutdown timeout the
-- abandoned ones cover what is missing.
abbrev pub is_live : Phase → Bool
is_live aborting = false
is_live stopped = false
is_live joining = true
is_live claiming = true
is_live waiting = true
is_live draining = true

pub record Accounts (n : ℕ) (w : Worker) : Type 0 where
  pub at_most : total w.counters + open_jobs w.jobs ≤ n
  pub at_least :
      ((is_live w.phase ≡ true)
        × (w.abandoned ≡ 0)
        × (w.timed_out ≡ false)
        × (n ≤ total w.counters + open_jobs w.jobs))
      ⊎ ((is_live w.phase ≡ false)
          × (n ≤ total w.counters + w.abandoned)
          × ((w.timed_out ≡ true) ⊎ ((w.timed_out ≡ false) × (w.abandoned ≡ 0))))

count_completion-total :
    (r : Result Bool StoreError) (c : Counters)
    → total c + 1 < 2 ^ 64
    → total (count_completion r c) ≡ total c + 1
unfolding count_completion
count_completion-total r c h = ground arith

-- A step inside a phase that moves a task from the open ones to a counter, or moves none.
Accounts-keeps :
    {n : ℕ} {v w : Worker}
    → w.phase ≡ v.phase
    → w.abandoned ≡ v.abandoned
    → w.timed_out ≡ v.timed_out
    → total w.counters + open_jobs w.jobs ≡ total v.counters + open_jobs v.jobs
    → total v.counters ≤ total w.counters
    → Accounts n v
    → Accounts n w
Accounts-keeps p a t s l acc = record {
  at_most = omega (arith, s, acc.at_most);
  at_least = elim acc.at_least [
    | inl (live, none_left, not_out, m) ↦
        inl (rw p live, rw a none_left, rw t not_out, omega (arith, s, m))
    | inr (dead, m, out) ↦ inr (
      rw p dead,
      omega (arith, a, l, m),
      elim out [ inl o ↦ inl (rw t o) | inr (o, z) ↦ inr (rw t o, rw a z) ],
    )
  ];
}

find_job-open :
    (j : Job) (js : List Job)
    → find_job j.task js ≡ some j
    → j.stage ≡ Stage.running
    → is_open j.stage ≡ 1
find_job-open j js f r = rw r refl

open-running :
    (j : Job) (s : Stage) (js : List Job)
    → find_job j.task js ≡ some j
    → j.stage ≡ Stage.running
    → open_jobs (set_stage j.task s js) + 1 ≡ open_jobs js + is_open s
open-running j s js f r = omega (arith, open_jobs-set_stage j.task s js j f, find_job-open j js f r)

pub run_job-Accounts :
    {n : ℕ} (j : Job) (p : Processing) (reply : Reply) (now : ℕ) (w : Worker) (t : Table)
    → n < 2 ^ 64
    → find_job j.task w.jobs ≡ some j
    → j.stage ≡ Stage.running
    → Accounts n w
    → Accounts n (run_job j p reply now w t).0
unfolding run_job process_claim bump
run_job-Accounts j succeeds reply now w t h f r a =
    let o = open-running j Stage.finished w.jobs f r in
    let answer = (complete reply now j.claimed.event.id w.owner t).0 in
    let c = count_completion-total answer w.counters (omega (arith, a.at_most, o, h)) in
    Accounts-keeps refl refl refl (omega (arith, c, o)) (omega (arith, c)) a
run_job-Accounts j fails reply now w t h f r a =
    let o = open-running j Stage.finished w.jobs f r in
    let room : total w.counters + 1 < 2 ^ 64 = omega (arith, a.at_most, o, h) in
    Accounts-keeps refl refl refl (omega (arith, room, o)) (omega (arith, room)) a
run_job-Accounts j panics reply now w t h f r a =
    let o = open-running j Stage.panicked w.jobs f r in
    Accounts-keeps refl refl refl (omega (arith, o)) (omega arith) a

Stage-cases : (s : Stage) → (s ≡ Stage.running) ⊎ (s ≡ Stage.finished) ⊎ (s ≡ Stage.panicked)
Stage-cases Stage.running = inl refl
Stage-cases Stage.finished = inr (inl refl)
Stage-cases Stage.panicked = inr (inr refl)

-- A join records the failure of a task that panicked.
join-total :
    (j : Job) (m : List (ℕ × EventId)) (c : Counters) (rest : ℕ)
    → j.stage ≢ Stage.running
    → total c + (rest + is_open j.stage) < 2 ^ 64
    → total (record_join (joined_of j) (m, c)).1 ≡ total c + is_open j.stage
unfolding joined_of record_join bump
join-total j m c rest r h = elim (Stage-cases j.stage) [
  | inl e ↦ absurd (r e)
  | inr (inl e) ↦ rw e (omega arith)
  | inr (inr e) ↦
      let room : c.failed + 1 < 2 ^ 64 = omega (arith, h, ap is_open e) in
      rw e (omega (arith, room))
]

pub join_job-Accounts :
    {n : ℕ} (j : Job) (w : Worker)
    → n < 2 ^ 64
    → find_job j.task w.jobs ≡ some j
    → j.stage ≢ Stage.running
    → Accounts n w
    → Accounts n (join_job j w)
unfolding join_job
join_job-Accounts j w h f r a =
    let o = open_jobs-remove_job j.task w.jobs j f in
    let room : total w.counters + (open_jobs (remove_job j.task w.jobs) + is_open j.stage)
        < 2 ^ 64 =
      omega (arith, o, a.at_most, h) in
    let s = join-total j w.running w.counters (open_jobs (remove_job j.task w.jobs)) r room in
    Accounts-keeps refl refl refl (omega (arith, o, s)) (omega (arith, s)) a
