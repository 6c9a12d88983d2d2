-- ===== src/Gated.antt =====
-- crates/pulsestream-worker/src/testing.rs: the processor that the tests of the worker watch. Each
-- atomic operation of a call of `process` is one step, since calls run on several threads; an
-- `AtomicUsize` has 64 bits, and a `Semaphore` is the number of its permits.
pub mod Calls
pub mod Counts
pub mod Peak
pub mod Overlaps
use pulse_stream.Common.{
  ℕ, zero, suc, ◌+◌, ◌-◌, ◌^◌, ◌%◌, max, Bool, any, leb, ◌==◌, if◌then◌else◌, Option, none, some,
  List, [], ◌∷◌, ◌++◌,
}
use pulse_stream.Event.{EventId}

-- `active` lists the elements of a `HashSet`.
pub record Inner : Type 0 where
  pub gate : Option ℕ
  pub started_signal : ℕ
  pub started : ℕ
  pub current : ℕ
  pub max_observed : ℕ
  pub completed : ℕ
  pub seen : List EventId
  pub active : List EventId
  pub overlaps : ℕ

unfoldable pub build : Option ℕ → Inner
build gate = record {
  gate = gate;
  started_signal = 0;
  started = 0;
  current = 0;
  max_observed = 0;
  completed = 0;
  seen = [];
  active = [];
  overlaps = 0;
}

-- `GatedProcessor::new`, which is also its `Default`.
unfoldable pub gated : Inner
unfolding build
gated = build (some 0)

-- `GatedProcessor::open`.
unfoldable pub ungated : Inner
unfolding build
ungated = build none

-- `wait_started`; nothing, while it waits for permits.
unfoldable pub wait_started : ℕ → Inner → Option Inner
wait_started n i =
    if leb n i.started_signal
    then some (record i { started_signal = i.started_signal - n })
    else none

unfoldable pub release : ℕ → Inner → Inner
release n i = elim i.gate [ none ↦ i | some permits ↦ record i { gate = some (permits + n) } ]

-- `fetch_add(1)` and `fetch_sub(1)`.
unfoldable pub increment : ℕ → ℕ
increment n = (n + 1) % 2 ^ 64

unfoldable pub decrement : ℕ → ℕ
decrement n = (n + (2 ^ 64 - 1)) % 2 ^ 64

unfoldable pub has_id : EventId → List EventId → Bool
has_id id ids = any (λ e. e.uuid == id.uuid) ids

-- `HashSet::remove`.
unfoldable pub remove_id : EventId → List EventId → List EventId
remove_id id [] = []
remove_id id (e ∷ ids) = if e.uuid == id.uuid then ids else e ∷ remove_id id ids

-- What a call of `process` does next; `observing` holds the variable `now`.
pub data Point : Type 0 where
  counting noting inserting overlapping starting signalling : Point
  at_gate removing uncounting completing returned : Point
  observing : ℕ → Point

-- The match on the gate; nothing, while the call waits for a permit.
unfoldable pub pass_gate : Option ℕ → Inner → Option Inner
pass_gate none i = some i
pass_gate (some zero) i = none
pass_gate (some (suc permits)) i = some (record i { gate = some permits })

-- One step of `process`; nothing, if it waits or has returned.
unfoldable pub process : EventId → Point → Inner → Option (Point × Inner)
unfolding increment decrement has_id remove_id pass_gate
process id counting i =
    some (observing (increment i.current), record i { current = increment i.current })
process id (observing now) i = some (noting, record i { max_observed = max i.max_observed now })
process id noting i = some (inserting, record i { seen = i.seen ++ id ∷ [] })
process id inserting i =
    if has_id id i.active
    then some (overlapping, i)
    else some (starting, record i { active = id ∷ i.active })
process id overlapping i = some (starting, record i { overlaps = increment i.overlaps })
process id starting i = some (signalling, record i { started = increment i.started })
process id signalling i = some (at_gate, record i { started_signal = i.started_signal + 1 })
process id at_gate i = elim (pass_gate i.gate i) [ none ↦ none | some j ↦ some (removing, j) ]
process id removing i = some (uncounting, record i { active = remove_id id i.active })
process id uncounting i = some (completing, record i { current = decrement i.current })
process id completing i = some (returned, record i { completed = increment i.completed })
process id returned i = none
