-- ===== src/Store/Claim/Waiting.antt =====
-- Which events wait for a claim and in what order, in the words of the comment on `Store::claim`
-- (crates/pulsestream-store/src/lib.rs): pending ones and those whose lease has ended, oldest first.
use pulse_stream.Common.{
  ℕ, suc, ◌<◌, ◌≤◌, ◌≡◌, ◌↔◌, ◌⊎◌, inl, inr, refl, Bool, true, false, Bool-cases, In, any, filter,
  length, ◌&&◌, not, some, arith, [], ◌∷◌,
}
use pulse_stream.Event.{pending, processing}
use pulse_stream.Store.Schema.{Row, Table}
use pulse_stream.Store.Claim.{has_expired, is_claimable, is_older}

abbrev pub IsWaiting : ℕ → Row → Type 0
IsWaiting now r =
    (r.status ≡ pending)
    ⊎ ((r.status ≡ processing) × (lease : ℕ) × (r.lease_expires_at ≡ some lease) × (lease ≤ now))

-- The event was accepted before the other, or at the same time with the smaller ID.
abbrev pub IsBefore : Row → Row → Type 0
IsBefore r s =
    (r.accepted_at < s.accepted_at) ⊎ ((r.accepted_at ≡ s.accepted_at) × (r.event_id < s.event_id))

pub is_claimable_iff : (now : ℕ) (r : Row) → (is_claimable now r ≡ true) ↔ IsWaiting now r
unfolding is_claimable has_expired
is_claimable_iff now r = ground arith

pub is_older-IsBefore : (r s : Row) → is_older r s ≡ true → IsBefore r s ⊎ (r.event_id ≡ s.event_id)
unfolding is_older
is_older-IsBefore r s h = ground arith

-- `Waiting now locked t n`: `n` events of the table wait and are not locked.
pub data Waiting (now : ℕ) (locked : ℕ → Bool) : Table → ℕ → Type 0 where
  none_left : Waiting now locked [] 0
  waits :
      {r : Row} {t : Table} {n : ℕ}
      → IsWaiting now r
      → locked r.event_id ≡ false
      → Waiting now locked t n
      → Waiting now locked (r ∷ t) (suc n)
  is_locked :
      {r : Row} {t : Table} {n : ℕ}
      → locked r.event_id ≡ true
      → Waiting now locked t n
      → Waiting now locked (r ∷ t) n
  is_not_waiting :
      {r : Row} {t : Table} {n : ℕ}
      → ¬ IsWaiting now r
      → Waiting now locked t n
      → Waiting now locked (r ∷ t) n

pub length-ready :
    {now : ℕ} {locked : ℕ → Bool} {t : Table} {n : ℕ}
    → Waiting now locked t n
    → length (filter (λ r. is_claimable now r && not (locked r.event_id)) t) ≡ n
length-ready none_left = refl
length-ready {now} (waits {r} c f w) =
    let k = (is_claimable_iff now r).1 c in let rest = length-ready w in rw (k, f) (cc rest)
length-ready {now} (is_locked {r} f w) = let rest = length-ready w in ground (arith, f, rest)
length-ready {now} (is_not_waiting {r} c w) = elim (Bool-cases (is_claimable now r)) [
  | inl e ↦ absurd (c ((is_claimable_iff now r).0 e))
  | inr e ↦ rw e (length-ready w)
]

pub any-false : (p : Row → Bool) (t : Table) → ((r : Row) → In r t → p r ≡ false) → any p t ≡ false
any-false p [] h = refl
any-false p (r ∷ t) h = rw (h r (inl refl)) (any-false p t (λ s m. h s (inr m)))
