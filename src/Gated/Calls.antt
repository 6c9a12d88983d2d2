-- ===== src/Gated/Calls.antt =====
-- Calls of `process` that interleave, and what is counted over them.
use pulse_stream.Common.{
  ℕ, zero, suc, ◌+◌, ◌≤◌, ◌≡◌, refl, max, length, Option, none, some, arith, List, [], ◌∷◌,
}
use pulse_stream.Event.{EventId}
use pulse_stream.Gated.{Inner, Point, counting, build, wait_started, release, process}

pub record Call : Type 0 where
  pub id : EventId
  pub point : Point

abbrev pub call_at : ℕ → List Call → Option Call
call_at n [] = none
call_at zero (c ∷ cs) = some c
call_at (suc n) (c ∷ cs) = call_at n cs

abbrev pub set_point : ℕ → Point → List Call → List Call
set_point n p [] = []
set_point zero p (c ∷ cs) = record c { point = p } ∷ cs
set_point (suc n) p (c ∷ cs) = c ∷ set_point n p cs

-- The sum of a measure over the calls.
abbrev pub tally : (Call → ℕ) → List Call → ℕ
tally f [] = 0
tally f (c ∷ cs) = f c + tally f cs

pub tally-set_point :
    (f : Call → ℕ) (n : ℕ) (p : Point) (cs : List Call) (c : Call)
    → call_at n cs ≡ some c
    → tally f (set_point n p cs) + f c ≡ tally f cs + f (record c { point = p })
tally-set_point f n p [] c h = cc
tally-set_point f zero p (d ∷ cs) c h = let same : d ≡ c = cc h in rw same (omega arith)
tally-set_point f (suc n) p (d ∷ cs) c h = omega (arith, tally-set_point f n p cs c h)

pub length-set_point : (n : ℕ) (p : Point) (cs : List Call) → length (set_point n p cs) ≡ length cs
length-set_point n p [] = refl
length-set_point zero p (c ∷ cs) = refl
length-set_point (suc n) p (c ∷ cs) = omega (arith, length-set_point n p cs)

-- The greatest value of a measure over the calls.
abbrev pub greatest : (Call → ℕ) → List Call → ℕ
greatest f [] = 0
greatest f (c ∷ cs) = max (f c) (greatest f cs)

abbrev pub others : ℕ → List Call → List Call
others n [] = []
others zero (c ∷ cs) = cs
others (suc n) (c ∷ cs) = c ∷ others n cs

pub greatest-set_point :
    (f : Call → ℕ) (n : ℕ) (p : Point) (cs : List Call) (c : Call)
    → call_at n cs ≡ some c
    → (greatest f cs ≡ max (f c) (greatest f (others n cs)))
      × (greatest f (set_point n p cs)
          ≡ max (f (record c { point = p })) (greatest f (others n cs)))
greatest-set_point f n p [] c h = cc
greatest-set_point f zero p (d ∷ cs) c h = let same : d ≡ c = cc h in rw same (refl, refl)
greatest-set_point f (suc n) p (d ∷ cs) c h =
    let (a, b) = greatest-set_point f n p cs c h in (omega (arith, a), omega (arith, b))

-- The calls that are between their two operations on `current`.
abbrev pub is_inside : Call → ℕ
is_inside c = elim c.point [
  | Point.counting ↦ 0
  | Point.completing ↦ 0
  | Point.returned ↦ 0
  | _ ↦ 1
]

-- One step of the processor and of the calls: a call begins or moves on, or a test lets calls pass
-- or waits for them.
pub data Move (i : Inner) (cs : List Call) : Inner → List Call → Type 0 where
  begins : (id : EventId) → Move i cs i (record { id = id; point = counting } ∷ cs)
  advances :
      (n : ℕ) (c : Call) (p : Point) (j : Inner)
      → call_at n cs ≡ some c
      → process c.id c.point i ≡ some (p, j)
      → Move i cs j (set_point n p cs)
  releases : (n : ℕ) → Move i cs (release n i) cs
  waits : (n : ℕ) (j : Inner) → wait_started n i ≡ some j → Move i cs j cs

-- A run from a new processor, with the greatest number of calls that were inside at once.
pub data Run (gate : Option ℕ) : Inner → List Call → ℕ → Type 0 where
  here : Run gate (build gate) [] 0
  next :
      {i j : Inner} {cs ds : List Call} {peak : ℕ}
      → Run gate i cs peak
      → Move i cs j ds
      → Run gate j ds (max peak (tally is_inside ds))

pub Move-length : {i j : Inner} {cs ds : List Call} → Move i cs j ds → length cs ≤ length ds
Move-length (begins id) = omega arith
Move-length {cs} (advances n c p j f h) = omega (arith, length-set_point n p cs)
Move-length (releases n) = omega arith
Move-length (waits n j h) = omega arith

-- What a test does leaves these as they are.
pub record SameCounters (i j : Inner) : Type 0 where
  pub same_started : j.started ≡ i.started
  pub same_current : j.current ≡ i.current
  pub same_max : j.max_observed ≡ i.max_observed
  pub same_completed : j.completed ≡ i.completed
  pub same_seen : j.seen ≡ i.seen
  pub same_active : j.active ≡ i.active
  pub same_overlaps : j.overlaps ≡ i.overlaps

pub release-SameCounters : (n : ℕ) (i : Inner) → SameCounters i (release n i)
unfolding release
release-SameCounters n i = record {
  same_started = ground arith;
  same_current = ground arith;
  same_max = ground arith;
  same_completed = ground arith;
  same_seen = ground arith;
  same_active = ground arith;
  same_overlaps = ground arith;
}

pub wait_started-SameCounters : (n : ℕ) (i j : Inner) → wait_started n i ≡ some j → SameCounters i j
unfolding wait_started
wait_started-SameCounters n i j h = record {
  same_started = ground arith;
  same_current = ground arith;
  same_max = ground arith;
  same_completed = ground arith;
  same_seen = ground arith;
  same_active = ground arith;
  same_overlaps = ground arith;
}
