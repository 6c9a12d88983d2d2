-- ===== src/Store/Claim/Bound.antt =====
-- How many events a claim returns, and that it does return them.
use pulse_stream.Common.{
  ℕ, suc, ◌+◌, ◌≤◌, ◌≡◌, refl, ◌∙◌, ap, Bool, false, ◌||◌, All, any, filter, length, inl, inr,
  Bool-cases, ◌==◌, leb, none, Result-cases, err, ◌≢◌, >>=-eq-ok, ok, min, arith, List, [], ◌∷◌,
  map,
}
use pulse_stream.Event.{
  EventStatus, WorkerId, parse_source, parse_event_type, max_source_chars, max_event_type_chars,
}
use pulse_stream.Event.Labels.{validate_label_iff}
use native.Mathlib.Decide.{dec_le}
use pulse_stream.Store.Errors.{StoreError, Reply, refused, lost, acknowledged}
use pulse_stream.Store.Schema.{Row, Table, find_by_id}
use pulse_stream.Store.Invariant.{IsSound, HasUniqueIds, HasLabels}
use pulse_stream.Store.Claim.{
  ClaimedEvent, candidates, is_chosen, lease_row, returned, to_claimed, collect, claim, max_limit,
  max_attempts,
}
use pulse_stream.Store.Claim.Candidates.{length-candidates-le}
use pulse_stream.Store.Claim.Returned.{claim_ok}

no_id :
    (id : ℕ) (t : Table) → find_by_id id t ≡ none → length (filter (λ r. id == r.event_id) t) ≡ 0
unfolding find_by_id
no_id id [] h = refl
no_id id (r ∷ t) h = ground (arith, no_id id t)

one_id : (id : ℕ) (t : Table) → HasUniqueIds t → length (filter (λ r. id == r.event_id) t) ≤ 1
one_id id [] u = omega arith
one_id id (r ∷ t) u = ground (arith, one_id id t u.1, no_id id t, no_id r.event_id t u.0)

length-filter-or {ℓ} :
    {A : Type ℓ} (p q : A → Bool) (xs : List A)
    → length (filter (λ x. p x || q x) xs) ≤ length (filter p xs) + length (filter q xs)
length-filter-or p q [] = omega arith
length-filter-or p q (x ∷ xs) = ground (arith, length-filter-or p q xs)

length-filter-false {ℓ} : {A : Type ℓ} (xs : List A) → length (filter (λ x. false) xs) ≡ 0
length-filter-false [] = refl
length-filter-false (x ∷ xs) = length-filter-false xs

length-filter-is_chosen :
    (chosen t : Table) → HasUniqueIds t → length (filter (is_chosen chosen) t) ≤ length chosen
unfolding is_chosen
length-filter-is_chosen [] t u = omega (arith, length-filter-false t)
length-filter-is_chosen (c ∷ cs) t u = omega (
  arith,
  length-filter-or (λ (r : Row). c.event_id == r.event_id) (is_chosen cs) t,
  one_id c.event_id t u,
  length-filter-is_chosen cs t u,
)

length-collect :
    (rows : List (Row × EventStatus)) (cs : List ClaimedEvent)
    → collect rows ≡ ok cs
    → length cs ≡ length rows
unfolding collect
length-collect [] cs e = let p : cs ≡ [] = cc in ap length p
length-collect (x ∷ xs) cs e =
    let (d, q, e') = >>=-eq-ok (to_claimed x) _ e in
    let (ds, q', e'') = >>=-eq-ok (collect xs) _ e' in
    let p : cs ≡ d ∷ ds = cc in ap length p ∙ ap suc (length-collect xs ds q')

length-map {ℓ κ} :
    {A : Type ℓ} {B : Type κ} (f : A → B) (xs : List A) → length (map f xs) ≡ length xs
length-map f [] = refl
length-map f (x ∷ xs) = ap suc (length-map f xs)

to_claimed-ne-err : (x : Row × EventStatus) (e : StoreError) → HasLabels x.0 → to_claimed x ≢ err e
unfolding to_claimed parse_source parse_event_type
to_claimed-ne-err x e h q = ground (
  arith,
  (validate_label_iff "source" x.0.source max_source_chars).1 h.source_label,
  (validate_label_iff "event_type" x.0.event_type max_event_type_chars).1 h.type_label,
)

collect-ne-err :
    (xs : List (Row × EventStatus)) (e : StoreError)
    → All (λ x. HasLabels x.0) xs
    → collect xs ≢ err e
unfolding collect
collect-ne-err [] e h q = cc
collect-ne-err (x ∷ xs) e h q = elim (Result-cases (to_claimed x)) [
  | inr (f, k) ↦ to_claimed-ne-err x f h.0 k
  | inl (c, k) ↦ elim (Result-cases (collect xs)) [
    | inr (f, k') ↦ collect-ne-err xs f h.1 k'
    | inl (cs, k') ↦ ground arith
  ]
]

returned-HasLabels :
    (owner : WorkerId) (now lease : ℕ) (p : Row → Bool) (t : Table)
    → All HasLabels t
    → All
        (λ (x : Row × EventStatus). HasLabels x.0)
        (map (λ r. (lease_row owner now lease r, r.status)) (filter p t))
unfolding lease_row
returned-HasLabels owner now lease p [] h = tt
returned-HasLabels owner now lease p (r ∷ t) h = elim (Bool-cases (p r)) [
  | inl e ↦ rw e (
    record { source_label = h.0.source_label; type_label = h.0.type_label },
    returned-HasLabels owner now lease p t h.1,
  )
  | inr e ↦ rw e (returned-HasLabels owner now lease p t h.1)
]

module _ (now : ℕ) (locked : ℕ → Bool) (owner : WorkerId) (limit lease : ℕ) (t : Table) where
  length-collected-le :
      {cs : List ClaimedEvent}
      → HasUniqueIds t
      → collect (returned owner now lease (candidates now locked limit t) t) ≡ ok cs
      → length cs ≤ limit
  unfolding returned
  length-collected-le {cs} u q = omega (
    arith,
    length-collect (returned owner now lease (candidates now locked limit t) t) cs q,
    length-map {B = Row × EventStatus} (λ r. (lease_row owner now lease r, r.status))
        (filter (is_chosen (candidates now locked limit t)) t),
    length-filter-is_chosen (candidates now locked limit t) t u,
    length-candidates-le now locked limit t,
  )

  claim_nothing : ¬ (1 ≤ limit) → (claim acknowledged now locked owner limit lease t).0 ≡ ok []
  unfolding claim
  claim_nothing h = ground arith

  claim_something :
      1 ≤ limit
      → any
          (λ r. leb max_attempts r.delivery_attempts)
          (candidates now locked (min limit max_limit) t)
        ≡ false
      → (claim acknowledged now locked owner limit lease t).0
        ≡ collect (returned owner now lease (candidates now locked (min limit max_limit) t) t)
  unfolding claim
  claim_something h e = ground arith

module _ (now : ℕ) (locked : ℕ → Bool) (owner : WorkerId) (limit lease : ℕ) (t : Table)
    (sound : IsSound t) where
  -- An acknowledged claim on a sound table returns at most as many events as it asks for.
  pub length-claim-le :
      {cs : List ClaimedEvent}
      → (claim acknowledged now locked owner limit lease t).0 ≡ ok cs
      → length cs ≤ limit
  length-claim-le {cs} e = elim (dec_le 1 limit) [
    | yes h ↦ omega (
      arith,
      length-collected-le now locked owner (min limit max_limit) lease t sound.ids
          (claim_ok now locked owner limit lease t sound h e).0,
    )
    | no h ↦
        let p : cs ≡ [] = cc (claim_nothing now locked owner limit lease t h) in
        omega (arith, ap length p)
  ]

  -- On a sound table an acknowledged claim succeeds, unless a candidate has used up its counter of
  -- delivery attempts.
  pub claim_total :
      any
          (λ r. leb max_attempts r.delivery_attempts)
          (candidates now locked (min limit max_limit) t)
        ≡ false
      → (cs : List ClaimedEvent) × ((claim acknowledged now locked owner limit lease t).0 ≡ ok cs)
  unfolding returned
  claim_total h = elim (dec_le 1 limit) [
    | no z ↦ ([], claim_nothing now locked owner limit lease t z)
    | yes z ↦
        elim (Result-cases
          (collect (returned owner now lease (candidates now locked (min limit max_limit) t) t))) [
            | inl (cs, e) ↦ (cs, claim_something now locked owner limit lease t z h ∙ e)
            | inr (f, e) ↦ absurd (
                collect-ne-err _ f
                  (returned-HasLabels owner now lease
                    (is_chosen (candidates now locked (min limit max_limit) t)) t sound.labels)
                  e)
          ]
  ]

-- The same whatever the database answers: a claim that fails returns nothing.
pub length-claim-le_any :
    (reply : Reply) (now : ℕ) (locked : ℕ → Bool) (owner : WorkerId) (limit lease : ℕ) (t : Table)
    {cs : List ClaimedEvent}
    → IsSound t
    → (claim reply now locked owner limit lease t).0 ≡ ok cs
    → length cs ≤ limit
unfolding claim
length-claim-le_any acknowledged now locked owner limit lease t s e =
    length-claim-le now locked owner limit lease t s e
length-claim-le_any (refused f) now locked owner limit lease t s e = ground arith
length-claim-le_any (lost f) now locked owner limit lease t s e = ground arith
