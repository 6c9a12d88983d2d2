-- ===== src/Store/Claim/Candidates.antt =====
-- What the candidates of a claim are.
use pulse_stream.Common.{
  ℕ, ◌≤◌, ◌≡◌, refl, ◌⊎◌, inl, inr, Bool, true, false, ◌&&◌, not, ==_iff, In, In-take, In-filter,
  length, length-take-le, none, arith, [], ◌∷◌, ◌==◌, Bool-cases, ◌≢◌,
}
use pulse_stream.Store.Schema.{Row, Table, find_by_id}
use pulse_stream.Store.Invariant.{HasUniqueIds}
use pulse_stream.Store.Claim.{is_claimable, insert_row, sort_rows, candidates, is_chosen}

In-insert_row : (r s : Row) (t : Table) → In r (insert_row s t) → (r ≡ s) ⊎ In r t
unfolding insert_row
In-insert_row r s [] h = h
In-insert_row r s (q ∷ t) h = ground (arith, In-insert_row r s t)

In-sort_rows : (r : Row) (t : Table) → In r (sort_rows t) → In r t
unfolding sort_rows
In-sort_rows r [] h = h
In-sort_rows r (s ∷ t) h = ground (arith, In-insert_row r s (sort_rows t), In-sort_rows r t)

module _ (now : ℕ) (locked : ℕ → Bool) (limit : ℕ) (t : Table) where
  -- A candidate is a row of the table that can be claimed and that nobody has locked.
  pub candidates_lem :
      (r : Row)
      → In r (candidates now locked limit t)
      → In r t × (is_claimable now r ≡ true) × (locked r.event_id ≡ false)
  unfolding candidates
  candidates_lem r h = ground (
    arith,
    In-filter (λ r. is_claimable now r && not (locked r.event_id)) r t
        (In-sort_rows r _ (In-take r limit _ h)),
  )

  pub length-candidates-le : length (candidates now locked limit t) ≤ limit
  unfolding candidates
  length-candidates-le = length-take-le limit _

pub find_by_id-In : (t : Table) (r : Row) → In r t → find_by_id r.event_id t ≢ none
unfolding find_by_id
find_by_id-In [] r h = elim h [ ]
find_by_id-In (s ∷ t) r h = ground (arith, find_by_id-In t r)

-- Rows of a sound table are told apart by their identities.
pub unique_row :
    (t : Table) (a b : Row) → HasUniqueIds t → In a t → In b t → a.event_id ≡ b.event_id → a ≡ b
unique_row [] a b u ha hb e = elim ha [ ]
unique_row (r ∷ t) a b u (inl p) (inl q) e = cc
unique_row (r ∷ t) a b u (inl p) (inr hb) e = absurd (find_by_id-In t b hb (rw (← e, p) u.0))
unique_row (r ∷ t) a b u (inr ha) (inl q) e = absurd (find_by_id-In t a ha (rw (e, q) u.0))
unique_row (r ∷ t) a b u (inr ha) (inr hb) e = unique_row t a b u.1 ha hb e

is_chosen_lem :
    (chosen : Table) (r : Row)
    → is_chosen chosen r ≡ true
    → (c : Row) × In c chosen × (c.event_id ≡ r.event_id)
unfolding is_chosen
is_chosen_lem [] r h = cc
is_chosen_lem (c ∷ cs) r h = elim (Bool-cases (c.event_id == r.event_id)) [
  | inl e ↦ (c, inl refl, (==_iff _ _).0 e)
  | inr e ↦ let (d, hd, ed) = is_chosen_lem cs r (ground arith) in (d, inr hd, ed)
]

pub is_chosen_of_In : (chosen : Table) (r : Row) → In r chosen → is_chosen chosen r ≡ true
unfolding is_chosen
is_chosen_of_In [] r h = elim h [ ]
is_chosen_of_In (c ∷ cs) r h = ground (arith, is_chosen_of_In cs r)

-- The UPDATE joins on the identity; it reaches the candidates and no other row.
pub chosen-In :
    (now : ℕ) (locked : ℕ → Bool) (limit : ℕ) (t : Table) (r : Row)
    → HasUniqueIds t
    → In r t
    → is_chosen (candidates now locked limit t) r ≡ true
    → In r (candidates now locked limit t)
chosen-In now locked limit t r u h e =
    let (c, hc, ec) = is_chosen_lem (candidates now locked limit t) r e in
    let q = unique_row t c r u (candidates_lem now locked limit t c hc).0 h ec in rw (← q) hc
