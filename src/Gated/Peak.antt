-- ===== src/Gated/Peak.antt =====
-- What `max_observed` says about the calls.
use pulse_stream.Common.{
  ℕ, zero, suc, Option, none, ◌+◌, ◌^◌, ◌≤◌, ◌<◌, ◌≡◌, ◌⊎◌, inl, inr, refl, max, length, Bool-cases,
  some, arith, List,
}
use pulse_stream.Event.{EventId}
use pulse_stream.Gated.{
  Inner, Point, counting, observing, noting, inserting, overlapping, starting, signalling, at_gate,
  removing, uncounting, completing, returned, build, increment, has_id, pass_gate, process,
}
use pulse_stream.Gated.Calls.{
  Call, call_at, set_point, tally, tally-set_point, length-set_point, greatest, greatest-set_point,
  is_inside, Move, Move-length, SameCounters, release-SameCounters, wait_started-SameCounters,
  begins, advances, releases, waits, Run, here, next,
}
use pulse_stream.Gated.Counts.{AreExact, counters_exact, is_inside-le, tally-le}

-- What a call has read and not yet recorded.
abbrev pub observes : Call → ℕ
observes c = elim c.point [ observing now ↦ now | _ ↦ 0 ]

abbrev Observation : Call → Call → Inner → Inner → Type 0
Observation c d i j =
    ((observes c ≡ 0)
      × (observes d ≡ increment i.current)
      × (is_inside d ≡ is_inside c + 1)
      × (j.max_observed ≡ i.max_observed))
    ⊎ ((observes d ≡ 0)
        × (is_inside d ≤ is_inside c)
        × (j.max_observed ≡ max i.max_observed (observes c)))

at_gate-Observation :
    (id : EventId) (gate : Option ℕ) (p : Point) (i j : Inner)
    → i.gate ≡ gate
    → process id at_gate i ≡ some (p, j)
    → Observation (record { id = id; point = at_gate }) (record { id = id; point = p }) i j
unfolding process pass_gate
at_gate-Observation id none p i j e h = ground arith
at_gate-Observation id (some zero) p i j e h = ground arith
at_gate-Observation id (some (suc permits)) p i j e h = ground arith

process-Observation :
    (id : EventId) (point p : Point) (i j : Inner)
    → process id point i ≡ some (p, j)
    → Observation (record { id = id; point = point }) (record { id = id; point = p }) i j
unfolding process
process-Observation id counting p i j h = ground arith
process-Observation id (observing now) p i j h = ground arith
process-Observation id noting p i j h = ground arith
process-Observation id inserting p i j h = elim (Bool-cases (has_id id i.active)) [
  | inl e ↦ ground arith
  | inr e ↦ ground arith
]
process-Observation id overlapping p i j h = ground arith
process-Observation id starting p i j h = ground arith
process-Observation id signalling p i j h = ground arith
process-Observation id at_gate p i j h = at_gate-Observation id i.gate p i j refl h
process-Observation id removing p i j h = ground arith
process-Observation id uncounting p i j h = ground arith
process-Observation id completing p i j h = ground arith
process-Observation id returned p i j h = cc

record IsPeak (i : Inner) (cs : List Call) (peak : ℕ) : Type 0 where
  reached : max i.max_observed (greatest observes cs) ≡ peak
  covers : tally is_inside cs ≤ peak

IsPeak-advance :
    (i j : Inner) (n : ℕ) (c : Call) (p : Point) (cs : List Call) (peak : ℕ)
    → call_at n cs ≡ some c
    → process c.id c.point i ≡ some (p, j)
    → length cs < 2 ^ 64
    → AreExact i cs
    → IsPeak i cs peak
    → IsPeak j (set_point n p cs) (max peak (tally is_inside (set_point n p cs)))
unfolding increment
IsPeak-advance i j n c p cs peak f h b a k =
    let t = tally-set_point is_inside n p cs c f in
    let (g, g') = greatest-set_point observes n p cs c f in
    let few = tally-le is_inside (set_point n p cs) is_inside-le in
    let same = length-set_point n p cs in
    elim (process-Observation c.id c.point p i j h) [
      | inl (x, y, z, w) ↦ record {
        reached = omega (arith, k.reached, k.covers, a.inside, t, g, g', few, same, x, y, z, w, b);
        covers = omega arith;
      }
      | inr (x, y, z) ↦ record {
        reached = omega (arith, k.reached, k.covers, t, g, g', x, y, z);
        covers = omega arith;
      }
    ]

SameCounters-IsPeak :
    {i j : Inner} {cs : List Call} {peak : ℕ}
    → SameCounters i j
    → IsPeak i cs peak
    → IsPeak j cs (max peak (tally is_inside cs))
SameCounters-IsPeak s k = record {
  reached = omega (arith, s.same_max, k.reached, k.covers);
  covers = omega arith;
}

Move-IsPeak :
    {i j : Inner} {cs ds : List Call} {peak : ℕ}
    → Move i cs j ds
    → length cs < 2 ^ 64
    → AreExact i cs
    → IsPeak i cs peak
    → IsPeak j ds (max peak (tally is_inside ds))
Move-IsPeak (begins id) b a k = record {
  reached = omega (arith, k.reached, k.covers);
  covers = omega arith;
}
Move-IsPeak {i} {cs = cs} {peak = peak} (advances n c p j f h) b a k =
    IsPeak-advance i j n c p cs peak f h b a k
Move-IsPeak {i} (releases n) b a k = SameCounters-IsPeak (release-SameCounters n i) k
Move-IsPeak {i} (waits n j h) b a k = SameCounters-IsPeak (wait_started-SameCounters n i j h) k

Run-IsPeak :
    {gate : Option ℕ} {i : Inner} {cs : List Call} {peak : ℕ}
    → Run gate i cs peak
    → length cs < 2 ^ 64
    → IsPeak i cs peak
unfolding build
Run-IsPeak here b = record { reached = refl; covers = omega arith }
Run-IsPeak (next {cs = cs} r m) b =
    let shorter : length cs < 2 ^ 64 = omega (arith, Move-length m, b) in
    Move-IsPeak m shorter (counters_exact r shorter) (Run-IsPeak r shorter)

-- After any interleaving of fewer than 2^64 calls, the greatest number of calls that were inside at
-- once is the greater of `max_observed` and the values that calls have read and not yet recorded.
pub max_observed_exact :
    {gate : Option ℕ} {i : Inner} {cs : List Call} {peak : ℕ}
    → Run gate i cs peak
    → length cs < 2 ^ 64
    → max i.max_observed (greatest observes cs) ≡ peak
max_observed_exact r b = (Run-IsPeak r b).reached
