-- ===== src/Store/Claim/Keeps.antt =====
-- A claim rewrites claimable rows only, and keeps the table sound.
use pulse_stream.Common.{
  ℕ, suc, ◌⊎◌, ◌≡◌, refl, ap, inl, inr, Bool, true, In, All, Bool-cases, length, arith, [], ◌∷◌,
  min,
}
use pulse_stream.Event.{WorkerId}
use pulse_stream.Store.Errors.{Reply}
use pulse_stream.Store.Schema.{Row, Table, IsConsistent}
use pulse_stream.Store.Invariant.{
  IsSound, HasUniqueIds, RowEvolves, RowEvolves-refl, Evolves, Evolves-refl,
}
use pulse_stream.Store.Invariant.Updates.{
  HasUniqueIds-update, HasUniqueKeys-update, HasLabels-update,
}
use pulse_stream.Store.Claim.{
  is_claimable, candidates, is_chosen, lease_row, update_chosen, claim, max_limit,
}
use pulse_stream.Store.Claim.Candidates.{candidates_lem, chosen-In}

lease_row-RowEvolves :
    (owner : WorkerId) (now lease : ℕ) (r : Row)
    → is_claimable now r ≡ true
    → RowEvolves r (lease_row owner now lease r)
unfolding lease_row is_claimable
lease_row-RowEvolves owner now lease r h = record {
  same_id = refl;
  same_source = refl;
  same_type = refl;
  same_payload = refl;
  same_key = refl;
  same_fingerprint = refl;
  same_time = refl;
  attempts = omega arith;
  no_return = inl (λ e. cc);
  final = inl (λ e. ground arith);
}

lease_row-IsConsistent :
    (owner : WorkerId) (now lease : ℕ) (r : Row)
    → is_claimable now r ≡ true
    → IsConsistent r
    → IsConsistent (lease_row owner now lease r)
unfolding lease_row is_claimable
lease_row-IsConsistent owner now lease r h c = ground arith

module _ (owner : WorkerId) (now lease : ℕ) (chosen : Table) where
  length-update_chosen : (t : Table) → length t ≡ length (update_chosen owner now lease chosen t)
  unfolding update_chosen
  length-update_chosen [] = refl
  length-update_chosen (r ∷ t) = ap suc (length-update_chosen t)

  update_chosen-Evolves :
      (t : Table)
      → ((r : Row) → In r t → is_chosen chosen r ≡ true → is_claimable now r ≡ true)
      → Evolves t (update_chosen owner now lease chosen t)
  unfolding update_chosen
  update_chosen-Evolves [] h = tt
  update_chosen-Evolves (r ∷ t) h = elim (Bool-cases (is_chosen chosen r)) [
    | inl e ↦ rw e (
      lease_row-RowEvolves owner now lease r (h r (inl refl) e),
      update_chosen-Evolves t (λ s hs. h s (inr hs)),
    )
    | inr e ↦ rw e (RowEvolves-refl r, update_chosen-Evolves t (λ s hs. h s (inr hs)))
  ]

  update_chosen-IsConsistent :
      (t : Table)
      → ((r : Row) → In r t → is_chosen chosen r ≡ true → is_claimable now r ≡ true)
      → All IsConsistent t
      → All IsConsistent (update_chosen owner now lease chosen t)
  unfolding update_chosen
  update_chosen-IsConsistent [] h c = tt
  update_chosen-IsConsistent (r ∷ t) h c = elim (Bool-cases (is_chosen chosen r)) [
    | inl e ↦ rw e (
      lease_row-IsConsistent owner now lease r (h r (inl refl) e) c.0,
      update_chosen-IsConsistent t (λ s hs. h s (inr hs)) c.1,
    )
    | inr e ↦ rw e (c.0, update_chosen-IsConsistent t (λ s hs. h s (inr hs)) c.1)
  ]

module _ (now : ℕ) (locked : ℕ → Bool) (owner : WorkerId) (limit lease : ℕ) (t : Table) where
  abbrev pub after_claim : Table
  after_claim = update_chosen owner now lease (candidates now locked limit t) t

  pub after_claim-Evolves : HasUniqueIds t → Evolves t after_claim
  after_claim-Evolves u =
      update_chosen-Evolves owner now lease (candidates now locked limit t) t
        (λ r h e. (candidates_lem now locked limit t r (chosen-In now locked limit t r u h e)).1)

  pub after_claim-IsSound : IsSound t → IsSound after_claim
  after_claim-IsSound s =
      let v = after_claim-Evolves s.ids in
      let e = length-update_chosen owner now lease (candidates now locked limit t) t in
      record {
        ids = HasUniqueIds-update t after_claim v e s.ids;
        keys = HasUniqueKeys-update t after_claim v e s.keys;
        consistent =
            update_chosen-IsConsistent owner now lease (candidates now locked limit t) t
              (λ r h e.
                (candidates_lem now locked limit t r (chosen-In now locked limit t r s.ids h e)).1)
              s.consistent;
        labels = HasLabels-update t after_claim v e s.labels;
      }

-- Whatever the answer of the database, the table is the old one or the claimed one.
pub claim_cases :
    (reply : Reply) (now : ℕ) (locked : ℕ → Bool) (owner : WorkerId) (limit lease : ℕ) (t : Table)
    → ((claim reply now locked owner limit lease t).1 ≡ t)
      ⊎ ((claim reply now locked owner limit lease t).1
          ≡ after_claim now locked owner (min limit max_limit) lease t)
unfolding claim
claim_cases reply now locked owner limit lease t = ground arith

module _ (reply : Reply) (now : ℕ) (locked : ℕ → Bool) (owner : WorkerId) (limit lease : ℕ)
    (t : Table) where
  pub claim-Evolves : HasUniqueIds t → Evolves t (claim reply now locked owner limit lease t).1
  claim-Evolves u = elim (claim_cases reply now locked owner limit lease t) [
    | inl e ↦ rw e (Evolves-refl t)
    | inr e ↦ rw e (after_claim-Evolves now locked owner (min limit max_limit) lease t u)
  ]

  pub claim-IsSound : IsSound t → IsSound (claim reply now locked owner limit lease t).1
  claim-IsSound s = elim (claim_cases reply now locked owner limit lease t) [
    | inl e ↦ rw e s
    | inr e ↦ rw e (after_claim-IsSound now locked owner (min limit max_limit) lease t s)
  ]
