-- ===== src/Store/Leases.antt =====
-- What a claim gives its worker until the lease ends.
pub mod Exclusive
use pulse_stream.Common.{
  ℕ, ◌+◌, ◌<◌, ◌≤◌, ◌≡◌, ◌≢◌, ◌⊎◌, inl, inr, refl, ◌∙◌, Bool, true, false, In, Bool-cases,
  Option-cases, some, none, ok, min, arith, List, if◌then◌else◌,
}
use pulse_stream.Event.{EventId, WorkerId, EventStatus, processing, processed, pending}
use pulse_stream.Store.Errors.{acknowledged}
use pulse_stream.Store.Schema.{Row, Table, find_by_id}
use pulse_stream.Store.Invariant.{IsSound}
use pulse_stream.Store.Invariant.Appends.{find_by_id-append_hit}
use pulse_stream.Store.Admit.{admit}
use pulse_stream.Store.Admit.Cases.{admit_cases}
use pulse_stream.Store.Claim.{
  ClaimedEvent, is_claimable, candidates, is_chosen, lease_row, update_chosen, claim, max_limit,
}
use pulse_stream.Store.Claim.Candidates.{candidates_lem, chosen-In}
use pulse_stream.Store.Claim.Keeps.{claim_cases, claim-IsSound}
use pulse_stream.Store.Claim.Returned.{
  In-find_by_id, find_by_id-update_chosen, claim_returns, Reports,
}
use pulse_stream.Store.Complete.{holds_claim, complete_row, complete}
use pulse_stream.Store.Complete.Exact.{IsHeldBy, find_by_id-complete_rows, complete_exact}
use pulse_stream.Store.Complete.Keeps.{complete_cases}
use pulse_stream.Store.History.{
  Step, admits, claims, completes, History, here, next, History-IsSound,
}

-- The time of a call, by the database's clock.
abbrev pub stamp : {t u : Table} → Step t u → ℕ
stamp (admits io now event key fingerprint v) = now
stamp (claims reply now locked owner limit lease) = now
stamp (completes reply now id owner) = now

-- Every call of a history is made before the deadline; the order of the calls is that of their
-- effects, and their times need not agree with it.
abbrev pub AllBefore : (deadline : ℕ) {t u : Table} → History t u → Type 0
AllBefore deadline here = Unit
AllBefore deadline (next h st) = AllBefore deadline h × (stamp st < deadline)

-- The row is under its owner's lease, or already processed.
abbrev pub IsLeased : WorkerId → ℕ → Row → Type 0
IsLeased owner deadline r =
    ((r.status ≡ processing)
      × (r.processing_owner ≡ some owner.uuid)
      × (r.lease_expires_at ≡ some deadline))
    ⊎ (r.status ≡ processed)

pub not-claimable :
    (owner : WorkerId) (deadline now : ℕ) (r : Row)
    → IsLeased owner deadline r
    → now < deadline
    → is_claimable now r ≡ false
unfolding is_claimable
not-claimable owner deadline now r l h = ground arith

not-chosen :
    (owner : WorkerId) (deadline now : ℕ) (locked : ℕ → Bool) (limit : ℕ) (id : ℕ) (t : Table)
    (r : Row)
    → IsSound t
    → find_by_id id t ≡ some r
    → IsLeased owner deadline r
    → now < deadline
    → is_chosen (candidates now locked limit t) r ≡ false
not-chosen owner deadline now locked limit id t r s f l h =
    elim (Bool-cases (is_chosen (candidates now locked limit t) r)) [
      | inr e ↦ e
      | inl e ↦
          let m = chosen-In now locked limit t r s.ids (In-find_by_id id t r f) e in
          cc ((candidates_lem now locked limit t r m).1, not-claimable owner deadline now r l h)
    ]

complete_row-IsLeased :
    (owner : WorkerId) (deadline now : ℕ) (id : EventId) (other : WorkerId) (r : Row)
    → IsLeased owner deadline r
    → IsLeased owner deadline (if holds_claim id other r then complete_row now r else r)
unfolding complete_row
complete_row-IsLeased owner deadline now id other r l = elim (Bool-cases (holds_claim id other r)) [
  | inl e ↦ rw e (inr refl)
  | inr e ↦ rw e l
]

module _ (owner : WorkerId) (deadline : ℕ) (id : ℕ) where
  Step-IsLeased :
      {t u : Table} (r : Row) (st : Step t u)
      → IsSound t
      → stamp st < deadline
      → find_by_id id t ≡ some r
      → IsLeased owner deadline r
      → (s : Row) × (find_by_id id u ≡ some s) × IsLeased owner deadline s
  Step-IsLeased {t} r (admits io now event key fingerprint v) sound h f l =
      elim (admit_cases io now event key fingerprint t) [
        | inl e ↦ (r, rw e f, l)
        | inr (k, i, e) ↦ (r, rw e (find_by_id-append_hit id t _ r f), l)
      ]
  Step-IsLeased {t} r (claims reply now locked other limit lease) sound h f l =
      elim (claim_cases reply now locked other limit lease t) [
        | inl e ↦ (r, rw e f, l)
        | inr e ↦ (
          r,
          rw e (
              find_by_id-update_chosen other now lease _ id t r f
              ∙ rw (not-chosen owner deadline now locked (min limit max_limit) id t r sound f l h)),
          l,
        )
      ]
  Step-IsLeased {t} r (completes reply now eid other) sound h f l =
      elim (complete_cases now eid other reply t) [
        | inl e ↦ (r, rw e f, l)
        | inr e ↦ (
          if holds_claim eid other r then complete_row now r else r,
          rw e (find_by_id-complete_rows now eid other id t r f),
          complete_row-IsLeased owner deadline now eid other r l,
        )
      ]

  pub History-IsLeased :
      {t u : Table} (r : Row) (h : History t u)
      → IsSound t
      → AllBefore deadline h
      → find_by_id id t ≡ some r
      → IsLeased owner deadline r
      → (s : Row) × (find_by_id id u ≡ some s) × IsLeased owner deadline s
  History-IsLeased r here sound b f l = (r, f, l)
  History-IsLeased r (next h st) sound b f l =
      let (s, g, m) = History-IsLeased r h sound b.0 f l in
      Step-IsLeased s st (History-IsSound h sound) b.1 g m
