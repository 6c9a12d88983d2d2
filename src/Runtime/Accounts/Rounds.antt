-- ===== src/Runtime/Accounts/Rounds.antt =====
-- The accounts between the phases of the loop, and when a round spawns tasks.
use pulse_stream.Common.{ℕ, ◌+◌, ◌≡◌, refl, Bool, true, false, inl, inr, length, some, arith, []}
use pulse_stream.Store.Errors.{Reply}
use pulse_stream.Store.Schema.{Table}
use pulse_stream.Store.Invariant.{IsSound}
use pulse_stream.Runtime.{
  Worker, Job, Phase, aborting, stopped, claim_round, find_job, remove_job, give_up,
}
use pulse_stream.Runtime.Jobs.{
  open_jobs, open_jobs-le, open_jobs-remove_job, spawn_all_lem, SameShell,
}
use pulse_stream.Runtime.Moves.{received}
use pulse_stream.Runtime.Capacity.{claim_round_cases}
use pulse_stream.Runtime.Accounts.Tasks.{is_live, Accounts}

-- A step that leaves the counters and the open tasks alone, between phases of the loop.
pub Accounts-moves :
    {n : ℕ} (p : Phase) (w : Worker)
    → is_live w.phase ≡ true
    → is_live p ≡ true
    → Accounts n w
    → Accounts n (record w { phase = p })
Accounts-moves p w live live_after a = record {
  at_most = a.at_most;
  at_least = elim a.at_least [
    | inl (l, none_left, not_out, m) ↦ inl (live_after, none_left, not_out, m)
    | inr (dead, m, out) ↦ cc
  ];
}

live_of : (p q : Phase) → p ≡ q → is_live q ≡ true → is_live p ≡ true
live_of p q e l = rw e l

-- A step of the loop that spawns a task for each of `k` events.
pub Accounts-spawns :
    {n : ℕ} (k : ℕ) (v w : Worker)
    → SameShell v w
    → open_jobs v.jobs ≡ k + open_jobs w.jobs
    → is_live w.phase ≡ true
    → Accounts n w
    → Accounts (n + k) v
Accounts-spawns k v w s o live a = record {
  at_most = rw s.counters (omega (arith, o, a.at_most));
  at_least = elim a.at_least [
    | inl (l, none_left, not_out, m) ↦ inl (
      rw s.phase live,
      rw s.abandoned none_left,
      rw s.timed_out not_out,
      rw s.counters (omega (arith, o, m)),
    )
    | inr (dead, m, out) ↦ cc
  ];
}

SameShell-refl : (w : Worker) → SameShell w w
SameShell-refl w = record {
  owner = refl;
  config = refl;
  counters = refl;
  phase = refl;
  timed_out = refl;
  abandoned = refl;
}

pub claim_round-spawns :
    (reply : Reply) (now : ℕ) (locked : ℕ → Bool) (w : Worker) (t : Table) (k : ℕ)
    → IsSound t
    → received reply now locked w t ≡ k
    → SameShell (claim_round reply now locked w t).0 w
      × (open_jobs (claim_round reply now locked w t).0.jobs ≡ k + open_jobs w.jobs)
claim_round-spawns reply now locked w t k s l = elim (claim_round_cases reply now locked w t s) [
  | inl (e, zero_events) ↦
      let z : 0 ≡ k = omega (arith, l, zero_events) in
      (rw e (SameShell-refl w), rw e (omega (arith, z)))
  | inr (inl (e, zero_events)) ↦
      let z : 0 ≡ k = omega (arith, l, zero_events) in
      (
        rw e (record {
          owner = refl;
          config = refl;
          counters = refl;
          phase = refl;
          timed_out = refl;
          abandoned = refl;
        }),
        rw e (omega (arith, z)),
      )
  | inr (inr (cs, e, m, each)) ↦
      let (same, size, o) = spawn_all_lem cs (record w { database_available = true }) in
      let z : length cs ≡ k = omega (arith, l, each) in
      (
        rw e (record {
          owner = same.owner;
          config = same.config;
          counters = same.counters;
          phase = same.phase;
          timed_out = same.timed_out;
          abandoned = same.abandoned;
        }),
        rw e (omega (arith, z, o)),
      )
]

-- The end of the drain or of the shutdown: no task is left.
pub Accounts-stops :
    {n : ℕ} (w : Worker) → w.jobs ≡ [] → Accounts n w → Accounts n (record w { phase = stopped })
Accounts-stops w z a =
    let none_open : open_jobs w.jobs ≡ 0 = rw z refl in
    record {
      at_most = a.at_most;
      at_least = elim a.at_least [
        | inl (live, none_left, not_out, m) ↦
            inr (refl, omega (arith, m, none_open), inr (not_out, none_left))
        | inr (dead, m, out) ↦ inr (refl, m, out)
      ];
    }

pub give_up-Accounts :
    {n : ℕ} (w : Worker) → is_live w.phase ≡ true → Accounts n w → Accounts n (give_up w)
unfolding give_up
give_up-Accounts w live a = record {
  at_most = a.at_most;
  at_least = elim a.at_least [
    | inl (l, none_left, not_out, m) ↦ inr (refl, omega (arith, m, open_jobs-le w.jobs), inl refl)
    | inr (dead, m, out) ↦ cc
  ];
}

pub abort-Accounts :
    {n : ℕ} (j : Job) (w : Worker)
    → w.phase ≡ aborting
    → find_job j.task w.jobs ≡ some j
    → Accounts n w
    → Accounts n (record w { jobs = remove_job j.task w.jobs })
abort-Accounts j w e f a = record {
  at_most = omega (arith, a.at_most, open_jobs-remove_job j.task w.jobs j f);
  at_least = elim a.at_least [
    | inl (live, none_left, not_out, m) ↦ let dead : is_live w.phase ≡ false = rw e refl in cc
    | inr (dead, m, out) ↦ inr (dead, m, out)
  ];
}
