-- ===== src/Gated/Overlaps.antt =====
-- What `overlaps` says about the calls: no event is processed twice at once.
use pulse_stream.Common.{
  ℕ, zero, suc, Option, none, ◌+◌, ◌-◌, ◌^◌, ◌≤◌, ◌<◌, ◌≡◌, ◌⊎◌, inl, inr, refl, length, false,
  Bool-cases, some, arith, List, [], ◌∷◌, ◌==◌, if◌then◌else◌,
}
use pulse_stream.Event.{EventId}
use pulse_stream.Gated.{
  Inner, Point, counting, observing, noting, inserting, overlapping, starting, signalling, at_gate,
  removing, uncounting, completing, returned, build, increment, has_id, remove_id, pass_gate,
  process,
}
use pulse_stream.Gated.Calls.{
  Call, call_at, set_point, tally, tally-set_point, length-set_point, Move, Move-length,
  SameCounters, release-SameCounters, wait_started-SameCounters, begins, advances, releases, waits,
  Run, here, next,
}
use pulse_stream.Gated.Counts.{tally-le}

-- A call that has found its event in `active` and not yet said so.
abbrev pub is_overlapping : Call → ℕ
is_overlapping c = elim c.point [ overlapping ↦ 1 | _ ↦ 0 ]

abbrev is_past : Call → ℕ
is_past c = elim c.point [
  | counting ↦ 0
  | observing now ↦ 0
  | noting ↦ 0
  | inserting ↦ 0
  | overlapping ↦ 0
  | _ ↦ 1
]

is_past-le : (c : Call) → is_past c ≤ 1
is_past-le c = ground arith

-- How often an element stands in the list of a set.
abbrev occurrences : EventId → List EventId → ℕ
occurrences k [] = 0
occurrences k (e ∷ es) = (if e.uuid == k.uuid then 1 else 0) + occurrences k es

absent :
    (id k : EventId) (es : List EventId)
    → has_id id es ≡ false
    → k.uuid ≡ id.uuid
    → occurrences k es ≡ 0
unfolding has_id
absent id k [] h s = refl
absent id k (e ∷ es) h s = ground (arith, absent id k es)

occurrences-remove_id :
    (k id : EventId) (es : List EventId)
    → occurrences k (remove_id id es) ≡ occurrences k es - (if id.uuid == k.uuid then 1 else 0)
unfolding remove_id
occurrences-remove_id k id [] = ground arith
occurrences-remove_id k id (e ∷ es) = ground (arith, occurrences-remove_id k id es)

module _ (k : EventId) where
  -- A call of the event `k` between its two operations on `active`.
  abbrev pub is_holding : Call → ℕ
  is_holding c = elim c.point [
    | overlapping ↦ if c.id.uuid == k.uuid then 1 else 0
    | starting ↦ if c.id.uuid == k.uuid then 1 else 0
    | signalling ↦ if c.id.uuid == k.uuid then 1 else 0
    | at_gate ↦ if c.id.uuid == k.uuid then 1 else 0
    | removing ↦ if c.id.uuid == k.uuid then 1 else 0
    | _ ↦ 0
  ]

  abbrev Holding : Call → Call → Inner → Inner → Type 0
  Holding c d i j =
      ((is_overlapping c ≡ 0)
        × (is_overlapping d ≡ 1)
        × (is_past c ≤ is_past d)
        × (j.overlaps ≡ i.overlaps)
        × (occurrences k j.active ≡ occurrences k i.active))
      ⊎ ((is_overlapping c ≡ 1)
          × (is_overlapping d ≡ 0)
          × (is_past c + 1 ≡ is_past d)
          × (j.overlaps ≡ increment i.overlaps)
          × (occurrences k j.active ≡ occurrences k i.active))
      ⊎ ((is_overlapping c ≡ 0)
          × (is_overlapping d ≡ 0)
          × (is_past c ≤ is_past d)
          × (j.overlaps ≡ i.overlaps)
          × (occurrences k j.active ≡ occurrences k i.active + is_holding d - is_holding c)
          × (occurrences k j.active ≤ occurrences k i.active ⊎ (occurrences k j.active ≤ 1)))

  at_gate-Holding :
      (id : EventId) (gate : Option ℕ) (p : Point) (i j : Inner)
      → i.gate ≡ gate
      → process id at_gate i ≡ some (p, j)
      → Holding (record { id = id; point = at_gate }) (record { id = id; point = p }) i j
  unfolding process pass_gate
  at_gate-Holding id none p i j e h = ground arith
  at_gate-Holding id (some zero) p i j e h = ground arith
  at_gate-Holding id (some (suc permits)) p i j e h = ground arith

  process-Holding :
      (id : EventId) (point p : Point) (i j : Inner)
      → process id point i ≡ some (p, j)
      → Holding (record { id = id; point = point }) (record { id = id; point = p }) i j
  unfolding process
  process-Holding id counting p i j h = ground arith
  process-Holding id (observing now) p i j h = ground arith
  process-Holding id noting p i j h = ground arith
  process-Holding id inserting p i j h = elim (Bool-cases (has_id id i.active)) [
    | inl e ↦ ground arith
    | inr e ↦ ground (arith, absent id k i.active e)
  ]
  process-Holding id overlapping p i j h = ground arith
  process-Holding id starting p i j h = ground arith
  process-Holding id signalling p i j h = ground arith
  process-Holding id at_gate p i j h = at_gate-Holding id i.gate p i j refl h
  process-Holding id removing p i j h = ground (arith, occurrences-remove_id k id i.active)
  process-Holding id uncounting p i j h = ground arith
  process-Holding id completing p i j h = ground arith
  process-Holding id returned p i j h = cc

  record IsTracked (i : Inner) (cs : List Call) : Type 0 where
    few : i.overlaps ≤ tally is_past cs
    once : occurrences k i.active ≤ 1
    tracked :
        (1 ≤ i.overlaps + tally is_overlapping cs) ⊎ (tally is_holding cs ≡ occurrences k i.active)

  IsTracked-advance :
      (i j : Inner) (n : ℕ) (c : Call) (p : Point) (cs : List Call)
      → call_at n cs ≡ some c
      → process c.id c.point i ≡ some (p, j)
      → length cs < 2 ^ 64
      → IsTracked i cs
      → IsTracked j (set_point n p cs)
  unfolding increment
  IsTracked-advance i j n c p cs f h b a =
      let held = tally-set_point is_holding n p cs c f in
      let past = tally-set_point is_past n p cs c f in
      let over = tally-set_point is_overlapping n p cs c f in
      let most = tally-le is_past (set_point n p cs) is_past-le in
      let same = length-set_point n p cs in
      elim (process-Holding c.id c.point p i j h) [
        | inl (x, y, z, s, o) ↦ record {
          few = omega (arith, a.few, past, z, s);
          once = omega (arith, a.once, o);
          tracked = inl (omega (arith, over, x, y));
        }
        | inr (inl (x, y, z, s, o)) ↦ record {
          few = omega (arith, a.few, past, z, s);
          once = omega (arith, a.once, o);
          tracked = inl (omega (arith, a.few, past, z, s, most, same, b));
        }
        | inr (inr (x, y, z, s, o, q)) ↦ record {
          few = omega (arith, a.few, past, z, s);
          once = omega (arith, a.once, q);
          tracked = elim a.tracked [
            | inl e ↦ inl (omega (arith, e, over, x, y, s))
            | inr e ↦ inr (omega (arith, e, held, o))
          ];
        }
      ]

  SameCounters-IsTracked :
      {i j : Inner} {cs : List Call} → SameCounters i j → IsTracked i cs → IsTracked j cs
  SameCounters-IsTracked s a = record {
    few = rw s.same_overlaps a.few;
    once = rw s.same_active a.once;
    tracked = rw (s.same_overlaps, s.same_active) a.tracked;
  }

  Move-IsTracked :
      {i j : Inner} {cs ds : List Call}
      → Move i cs j ds
      → length cs < 2 ^ 64
      → IsTracked i cs
      → IsTracked j ds
  Move-IsTracked (begins id) b a = record {
    few = omega (arith, a.few);
    once = a.once;
    tracked = omega (arith, a.tracked);
  }
  Move-IsTracked {i} {cs = cs} (advances n c p j f h) b a = IsTracked-advance i j n c p cs f h b a
  Move-IsTracked {i} (releases n) b a = SameCounters-IsTracked (release-SameCounters n i) a
  Move-IsTracked {i} (waits n j h) b a =
      SameCounters-IsTracked (wait_started-SameCounters n i j h) a

  Run-IsTracked :
      {gate : Option ℕ} {i : Inner} {cs : List Call} {peak : ℕ}
      → Run gate i cs peak
      → length cs < 2 ^ 64
      → IsTracked i cs
  unfolding build
  Run-IsTracked here b = record { few = omega arith; once = omega arith; tracked = inr refl }
  Run-IsTracked (next {cs = cs} r m) b =
      let shorter : length cs < 2 ^ 64 = omega (arith, Move-length m, b) in
      Move-IsTracked m shorter (Run-IsTracked r shorter)

  -- After any interleaving of fewer than 2^64 calls: if `overlaps` is 0 and no call is about to
  -- raise it, then at most one call of an event is between its two operations on `active`.
  pub overlaps_exact :
      {gate : Option ℕ} {i : Inner} {cs : List Call} {peak : ℕ}
      → Run gate i cs peak
      → length cs < 2 ^ 64
      → i.overlaps ≡ 0
      → tally is_overlapping cs ≡ 0
      → tally is_holding cs ≤ 1
  overlaps_exact r b none_seen none_due =
      let a = Run-IsTracked r b in omega (arith, a.once, a.tracked, none_seen, none_due)
