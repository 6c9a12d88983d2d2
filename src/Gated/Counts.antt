-- ===== src/Gated/Counts.antt =====
-- What the counters of the test processor say about the calls.
use pulse_stream.Common.{
  ℕ, zero, suc, Option, none, ◌+◌, ◌^◌, ◌≤◌, ◌<◌, ◌≡◌, ◌⊎◌, inl, inr, refl, ap, ◌∙◌, length,
  length-append, Bool-cases, some, arith, List, [], ◌∷◌,
}
use pulse_stream.Event.{EventId}
use pulse_stream.Gated.{
  Inner, Point, counting, observing, noting, inserting, overlapping, starting, signalling, at_gate,
  removing, uncounting, completing, returned, build, increment, decrement, has_id, pass_gate,
  process,
}
use pulse_stream.Gated.Calls.{
  Call, call_at, set_point, tally, tally-set_point, length-set_point, is_inside, Move, Move-length,
  SameCounters, release-SameCounters, wait_started-SameCounters, begins, advances, releases, waits,
  Run, here, next,
}

-- The calls that are past an operation.
abbrev pub has_noted : Call → ℕ
has_noted c = elim c.point [ counting ↦ 0 | observing now ↦ 0 | noting ↦ 0 | _ ↦ 1 ]

abbrev pub has_started : Call → ℕ
has_started c = elim c.point [
  | signalling ↦ 1
  | at_gate ↦ 1
  | removing ↦ 1
  | uncounting ↦ 1
  | completing ↦ 1
  | returned ↦ 1
  | _ ↦ 0
]

abbrev pub has_returned : Call → ℕ
has_returned c = elim c.point [ returned ↦ 1 | _ ↦ 0 ]

-- A counter follows a measure of a call.
abbrev Follows : (before after : ℕ) (x y : ℕ) → Type 0
Follows before after x y =
    ((before ≡ after) × (y ≡ x))
    ⊎ ((before + 1 ≡ after) × (y ≡ increment x))
    ⊎ ((before ≡ after + 1) × (y ≡ decrement x))

abbrev Progress : Call → Call → Inner → Inner → Type 0
Progress c d i j =
    Follows (is_inside c) (is_inside d) i.current j.current
    × (has_noted c + length j.seen ≡ has_noted d + length i.seen)
    × Follows (has_started c) (has_started d) i.started j.started
    × Follows (has_returned c) (has_returned d) i.completed j.completed

at_gate-Progress :
    (id : EventId) (gate : Option ℕ) (p : Point) (i j : Inner)
    → i.gate ≡ gate
    → process id at_gate i ≡ some (p, j)
    → Progress (record { id = id; point = at_gate }) (record { id = id; point = p }) i j
unfolding process pass_gate
at_gate-Progress id none p i j e h = ground arith
at_gate-Progress id (some zero) p i j e h = ground arith
at_gate-Progress id (some (suc permits)) p i j e h = ground arith

process-Progress :
    (id : EventId) (point p : Point) (i j : Inner)
    → process id point i ≡ some (p, j)
    → Progress (record { id = id; point = point }) (record { id = id; point = p }) i j
unfolding process
process-Progress id counting p i j h = ground arith
process-Progress id (observing now) p i j h = ground arith
process-Progress id noting p i j h = ground (arith, length-append i.seen (id ∷ []))
process-Progress id inserting p i j h = elim (Bool-cases (has_id id i.active)) [
  | inl e ↦ ground arith
  | inr e ↦ ground arith
]
process-Progress id overlapping p i j h = ground arith
process-Progress id starting p i j h = ground arith
process-Progress id signalling p i j h = ground arith
process-Progress id at_gate p i j h = at_gate-Progress id i.gate p i j refl h
process-Progress id removing p i j h = ground arith
process-Progress id uncounting p i j h = ground arith
process-Progress id completing p i j h = ground arith
process-Progress id returned p i j h = cc

pub tally-le : (f : Call → ℕ) (cs : List Call) → ((c : Call) → f c ≤ 1) → tally f cs ≤ length cs
tally-le f [] b = omega arith
tally-le f (c ∷ cs) b = omega (arith, b c, tally-le f cs b)

pub is_inside-le : (c : Call) → is_inside c ≤ 1
is_inside-le c = ground arith

-- A counter below 2^64 stays the tally of its measure.
Follows-tally :
    (f : Call → ℕ) (n : ℕ) (p : Point) (cs : List Call) (c : Call) (x y : ℕ)
    → call_at n cs ≡ some c
    → tally f (set_point n p cs) < 2 ^ 64
    → Follows (f c) (f (record c { point = p })) x y
    → x ≡ tally f cs
    → x < 2 ^ 64
    → y ≡ tally f (set_point n p cs)
unfolding increment decrement
Follows-tally f n p cs c x y h b s e l =
    let t = tally-set_point f n p cs c h in
    elim s [
      | inl (a, q) ↦ omega (arith, a, q, t)
      | inr (inl (a, q)) ↦ omega (arith, a, q, t)
      | inr (inr (a, q)) ↦ omega (arith, a, q, t)
    ]

pub record AreExact (i : Inner) (cs : List Call) : Type 0 where
  pub inside : i.current ≡ tally is_inside cs
  pub noted : length i.seen ≡ tally has_noted cs
  pub begun : i.started ≡ tally has_started cs
  pub finished : i.completed ≡ tally has_returned cs

bounded :
    (f : Call → ℕ) (cs : List Call)
    → ((c : Call) → f c ≤ 1)
    → length cs < 2 ^ 64
    → tally f cs < 2 ^ 64
bounded f cs b h = omega (arith, tally-le f cs b, h)

SameCounters-AreExact :
    {i j : Inner} {cs : List Call} → SameCounters i j → AreExact i cs → AreExact j cs
SameCounters-AreExact s a = record {
  inside = s.same_current ∙ a.inside;
  noted = ap length s.same_seen ∙ a.noted;
  begun = s.same_started ∙ a.begun;
  finished = s.same_completed ∙ a.finished;
}

AreExact-advance :
    (i j : Inner) (n : ℕ) (c : Call) (p : Point) (cs : List Call)
    → call_at n cs ≡ some c
    → process c.id c.point i ≡ some (p, j)
    → length cs < 2 ^ 64
    → AreExact i cs
    → AreExact j (set_point n p cs)
AreExact-advance i j n c p cs f h b a =
    let ds = set_point n p cs in
    let b' : length ds < 2 ^ 64 = rw (length-set_point n p cs) b in
    let (x, y, z, w) = process-Progress c.id c.point p i j h in
    let noted = tally-set_point has_noted n p cs c f in
    record {
      inside =
          Follows-tally is_inside n p cs c i.current j.current f
            (bounded is_inside ds is_inside-le b') x a.inside
            (rw a.inside (bounded is_inside cs is_inside-le b));
      noted = omega (arith, noted, y, a.noted);
      begun =
          Follows-tally has_started n p cs c i.started j.started f
            (bounded has_started ds (λ d. ground arith) b') z a.begun
            (rw a.begun (bounded has_started cs (λ d. ground arith) b));
      finished =
          Follows-tally has_returned n p cs c i.completed j.completed f
            (bounded has_returned ds (λ d. ground arith) b') w a.finished
            (rw a.finished (bounded has_returned cs (λ d. ground arith) b));
    }

Move-AreExact :
    {i j : Inner} {cs ds : List Call}
    → Move i cs j ds
    → length cs < 2 ^ 64
    → AreExact i cs
    → AreExact j ds
Move-AreExact (begins id) b a = record {
  inside = omega (arith, a.inside);
  noted = omega (arith, a.noted);
  begun = omega (arith, a.begun);
  finished = omega (arith, a.finished);
}
Move-AreExact {i} {cs} (advances n c p j f h) b a = AreExact-advance i j n c p cs f h b a
Move-AreExact {i} (releases n) b a = SameCounters-AreExact (release-SameCounters n i) a
Move-AreExact {i} (waits n j h) b a = SameCounters-AreExact (wait_started-SameCounters n i j h) a

-- After any interleaving of fewer than 2^64 calls, `current` is the number of calls inside,
-- `started` and `completed` are the numbers of calls that are past these operations, and `seen`
-- has one entry for each call that has noted its event.
pub counters_exact :
    {gate : Option ℕ} {i : Inner} {cs : List Call} {peak : ℕ}
    → Run gate i cs peak
    → length cs < 2 ^ 64
    → AreExact i cs
unfolding build
counters_exact here b = record { inside = refl; noted = refl; begun = refl; finished = refl }
counters_exact (next {cs = cs} r m) b =
    let shorter : length cs < 2 ^ 64 = omega (arith, Move-length m, b) in
    Move-AreExact m shorter (counters_exact r shorter)
