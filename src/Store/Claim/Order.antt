-- ===== src/Store/Claim/Order.antt =====
-- Claims take the oldest events first.
use pulse_stream.Common.{
  ℕ, ◌≤◌, ◌∙◌, length, ap, suc, zero, ◌≡◌, ◌⊎◌, inl, inr, refl, Bool, true, false, ◌&&◌, not, In,
  All, take, filter, Bool-cases, arith, [], ◌∷◌,
}
use pulse_stream.Store.Schema.{Row, Table}
use pulse_stream.Store.Claim.Waiting.{IsWaiting, is_claimable_iff, Waiting, length-ready}
use pulse_stream.Store.Claim.{is_claimable, is_older, insert_row, sort_rows, candidates}

abbrev IsSorted : Table → Type 0
IsSorted [] = Unit
IsSorted (r ∷ t) = All (λ s. is_older r s ≡ true) t × IsSorted t

is_older_trans : (a b c : Row) → is_older a b ≡ true → is_older b c ≡ true → is_older a c ≡ true
unfolding is_older
is_older_trans a b c h k = ground arith

is_older-total : (a b : Row) → is_older a b ≡ false → is_older b a ≡ true
unfolding is_older
is_older-total a b h = ground arith

All-older :
    (a b : Row) (t : Table)
    → is_older a b ≡ true
    → All (λ s. is_older b s ≡ true) t
    → All (λ s. is_older a s ≡ true) t
All-older a b [] h k = tt
All-older a b (c ∷ t) h k = (is_older_trans a b c h k.0, All-older a b t h k.1)

All-insert_row :
    (a r : Row) (t : Table)
    → is_older a r ≡ true
    → All (λ s. is_older a s ≡ true) t
    → All (λ s. is_older a s ≡ true) (insert_row r t)
unfolding insert_row
All-insert_row a r [] h k = (h, tt)
All-insert_row a r (s ∷ t) h k = elim (Bool-cases (is_older r s)) [
  | inl e ↦ rw e (h, k)
  | inr e ↦ rw e (k.0, All-insert_row a r t h k.1)
]

insert_row-IsSorted : (r : Row) (t : Table) → IsSorted t → IsSorted (insert_row r t)
unfolding insert_row
insert_row-IsSorted r [] s = (tt, tt)
insert_row-IsSorted r (q ∷ t) s = elim (Bool-cases (is_older r q)) [
  | inl e ↦ rw e ((e, All-older r q t e s.0), s)
  | inr e ↦ rw e (All-insert_row q r t (is_older-total r q e) s.0, insert_row-IsSorted r t s.1)
]

sort_rows-IsSorted : (t : Table) → IsSorted (sort_rows t)
unfolding sort_rows
sort_rows-IsSorted [] = tt
sort_rows-IsSorted (r ∷ t) = insert_row-IsSorted r (sort_rows t) (sort_rows-IsSorted t)

In-insert_row_self : (r : Row) (t : Table) → In r (insert_row r t)
unfolding insert_row
In-insert_row_self r [] = inl refl
In-insert_row_self r (s ∷ t) = elim (Bool-cases (is_older r s)) [
  | inl e ↦ rw e (inl refl)
  | inr e ↦ rw e (inr (In-insert_row_self r t))
]

In-insert_row_of_In : (r s : Row) (t : Table) → In r t → In r (insert_row s t)
unfolding insert_row
In-insert_row_of_In r s [] h = elim h [ ]
In-insert_row_of_In r s (q ∷ t) h = ground (arith, In-insert_row_of_In r s t)

In-sort_rows_of_In : (r : Row) (t : Table) → In r t → In r (sort_rows t)
unfolding sort_rows
In-sort_rows_of_In r [] h = elim h [ ]
In-sort_rows_of_In r (s ∷ t) (inl e) = rw e (In-insert_row_self s (sort_rows t))
In-sort_rows_of_In r (s ∷ t) (inr h) =
    In-insert_row_of_In r s (sort_rows t) (In-sort_rows_of_In r t h)

All-in : (P : Row → Type 0) (t : Table) (r : Row) → All P t → In r t → P r
All-in P [] r a h = elim h [ ]
All-in P (s ∷ t) r a (inl e) = rw e a.0
All-in P (s ∷ t) r a (inr h) = All-in P t r a.1 h

-- What a sorted table's first rows leave is no older than they are.
take_oldest :
    (n : ℕ) (t : Table) (r s : Row)
    → IsSorted t
    → In r (take n t)
    → In s t
    → In s (take n t) ⊎ (is_older r s ≡ true)
take_oldest zero t r s o h k = elim h [ ]
take_oldest (suc n) [] r s o h k = elim k [ ]
take_oldest (suc n) (q ∷ t) r s o h (inl e) = inl (inl e)
take_oldest (suc n) (q ∷ t) r s o (inl e) (inr k) =
    inr (rw e (All-in (λ z. is_older q z ≡ true) t s o.0 k))
take_oldest (suc n) (q ∷ t) r s o (inr h) (inr k) = elim (take_oldest n t r s o.1 h k) [
  | inl m ↦ inl (inr m)
  | inr m ↦ inr m
]

pub In-filter_of_In :
    (p : Row → Bool) (r : Row) (t : Table) → In r t → p r ≡ true → In r (filter p t)
In-filter_of_In p r [] h e = elim h [ ]
In-filter_of_In p r (s ∷ t) h e = ground (arith, In-filter_of_In p r t)

-- A row that is left behind is no older than a candidate.
pub candidates_oldest :
    (now : ℕ) (locked : ℕ → Bool) (limit : ℕ) (t : Table) (r s : Row)
    → In r (candidates now locked limit t)
    → In s t
    → is_claimable now s ≡ true
    → locked s.event_id ≡ false
    → In s (candidates now locked limit t) ⊎ (is_older r s ≡ true)
unfolding candidates
candidates_oldest now locked limit t r s h k c l =
    let ready = λ (q : Row). is_claimable now q && not (locked q.event_id) in
    take_oldest limit (sort_rows (filter ready t)) r s (sort_rows-IsSorted (filter ready t)) h
      (In-sort_rows_of_In s (filter ready t) (In-filter_of_In ready s t k (rw (c, l))))

take_whole : (n : ℕ) (t : Table) → length t ≤ n → take n t ≡ t
take_whole zero [] h = refl
take_whole zero (r ∷ t) h = absurd (omega (arith, h))
take_whole (suc n) [] h = refl
take_whole (suc n) (r ∷ t) h = ap (◌∷◌ r) (take_whole n t (omega (arith, h)))

length-insert_row : (r : Row) (t : Table) → length (insert_row r t) ≡ suc (length t)
unfolding insert_row
length-insert_row r [] = refl
length-insert_row r (s ∷ t) = ground (arith, length-insert_row r t)

length-sort_rows : (t : Table) → length (sort_rows t) ≡ length t
unfolding sort_rows
length-sort_rows [] = refl
length-sort_rows (r ∷ t) = length-insert_row r (sort_rows t) ∙ ap suc (length-sort_rows t)

-- A claim that asks for no fewer events than wait has each of them among its candidates.
pub candidates_all :
    {now : ℕ} {locked : ℕ → Bool} {t : Table} {n : ℕ} (limit : ℕ) (s : Row)
    → Waiting now locked t n
    → n ≤ limit
    → In s t
    → IsWaiting now s
    → locked s.event_id ≡ false
    → In s (candidates now locked limit t)
unfolding candidates
candidates_all {now} {locked} {t} limit s w h k c l =
    let ready = λ (q : Row). is_claimable now q && not (locked q.event_id) in
    let few = length-sort_rows (filter ready t) ∙ length-ready w in
    rw (take_whole limit (sort_rows (filter ready t)) (omega (arith, few, h))) (
      In-sort_rows_of_In s (filter ready t)
        (In-filter_of_In ready s t k (rw ((is_claimable_iff now s).1 c, l))))
