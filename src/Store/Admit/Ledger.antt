-- ===== src/Store/Admit/Ledger.antt =====
-- The abstract view of the table for admissions: which request each scoped key stands for.
use pulse_stream.Common.{
  ℕ, ◌≡◌, ◌≢◌, ◌⊎◌, inl, inr, refl, ◌∙◌, ◌&&◌, Text, Bytes, String, text_eq, text_eq_iff,
  if◌then◌else◌, Option, none, some, Option-cases, Result, ok, err, arith, [], ◌∷◌, ◌++◌,
}
use pulse_stream.Event.{Event, EventId}
use pulse_stream.Idempotency.{IdempotencyKey, RequestFingerprint}
use pulse_stream.Store.Errors.{
  StoreError, inconsistent, Reply, acknowledged, refused, lost, SqlxError, from_sqlx, commit,
}
use pulse_stream.Store.Schema.{Row, Table, find_by_key, new_row}
use pulse_stream.Store.Invariant.Appends.{find_by_key-append, find_by_key-append_hit}
use pulse_stream.Store.Admit.{
  AdmitOutcome, AdmitIo, created, replayed, conflict, run_transaction, admit,
}

-- The identity and the fingerprint that a scoped key was first used with.
abbrev pub Entry : Type 0
Entry = Option (ℕ × Bytes)

abbrev entry_of : Option Row → Entry
entry_of none = none
entry_of (some r) = some (r.event_id, r.request_fingerprint)

abbrev pub ledger : Table → Text → Text → Entry
ledger t source key = entry_of (find_by_key source key t)

-- What a request comes to, by the entry of its key.
abbrev pub judge : Entry → EventId → RequestFingerprint → AdmitOutcome
judge none id fingerprint = created id
judge (some (first, stored)) id fingerprint =
    if text_eq stored fingerprint.bytes then replayed (record { uuid = first }) else conflict

-- The entry afterwards: the first request keeps the key.
abbrev pub record_entry : Entry → EventId → RequestFingerprint → Entry
record_entry none id fingerprint = some (id.uuid, fingerprint.bytes)
record_entry (some e) id fingerprint = some e

ledger-append :
    (t : Table) (r : Row) (source key : Text)
    → find_by_key r.source r.idempotency_key t ≡ none
    → ledger (t ++ r ∷ []) source key ≡ (
        if text_eq r.source source && text_eq r.idempotency_key key
        then some (r.event_id, r.request_fingerprint)
        else ledger t source key)
unfolding find_by_key
ledger-append t r source key h = elim (Option-cases (find_by_key source key t)) [
  | inl e ↦ ground (arith, find_by_key-append source key t r e)
  | inr (s, e) ↦ ground (
    arith,
    find_by_key-append_hit source key t r s e,
    text_eq_iff r.source source,
    text_eq_iff r.idempotency_key key,
  )
]

commit_failure :
    {A T : Type 0} (reply : Reply) (before : T) (r : Result (A × T) StoreError) {e : StoreError}
    → (commit reply before r).0 ≡ err e
    → ((commit reply before r).1 ≡ before)
      ⊎ ((f : SqlxError) × (a : A) × (after : T) × (reply ≡ lost f)
          × (r ≡ ok (a, after))
          × ((commit reply before r).1 ≡ after))
unfolding commit
commit_failure reply before (err e) h = inl refl
commit_failure acknowledged before (ok (a, after)) h = inl (cc)
commit_failure (refused f) before (ok (a, after)) h = inl refl
commit_failure (lost f) before (ok (a, after)) h = inr (f, a, after, refl, refl, refl)

module _ (io : AdmitIo) (now : ℕ) (event : Event) (key : IdempotencyKey)
    (fingerprint : RequestFingerprint) (t : Table) where
  abbrev entry : Entry
  entry = ledger t event.source.text key.text

  admit-judge :
      {o : AdmitOutcome}
      → (admit io now event key fingerprint t).0 ≡ ok o
      → o ≡ judge entry event.id fingerprint
  unfolding admit
  admit-judge h = ground arith

  ledger_of_created :
      (u : Table) (source' key' : Text)
      → find_by_key event.source.text key.text t ≡ none
      → u ≡ t ++ new_row now event key fingerprint ∷ []
      → ledger u source' key' ≡ (
          if text_eq event.source.text source' && text_eq key.text key'
          then record_entry entry event.id fingerprint
          else ledger t source' key')
  unfolding new_row
  ledger_of_created u source' key' h e =
      rw (e, ledger-append t (new_row now event key fingerprint) source' key' h, h)

  ledger_of_kept :
      (source' key' : Text) (r : Row)
      → find_by_key event.source.text key.text t ≡ some r
      → ledger t source' key' ≡ (
          if text_eq event.source.text source' && text_eq key.text key'
          then record_entry entry event.id fingerprint
          else ledger t source' key')
  ledger_of_kept source' key' r h =
      ground (arith, text_eq_iff event.source.text source', text_eq_iff key.text key')

  ok_cases :
      {o : AdmitOutcome}
      → (admit io now event key fingerprint t).0 ≡ ok o
      → ((r : Row) × (find_by_key event.source.text key.text t ≡ some r)
          × ((admit io now event key fingerprint t).1 ≡ t))
        ⊎ ((find_by_key event.source.text key.text t ≡ none)
            × ((admit io now event key fingerprint t).1
                ≡ t ++ new_row now event key fingerprint ∷ []))
  unfolding admit
  ok_cases h = elim (Option-cases (find_by_key event.source.text key.text t)) [
    | inl e ↦ inr (e, ground arith)
    | inr (r, e) ↦ inl (r, e, ground arith)
  ]

  -- Admission refines the abstract ledger: a successful call answers by the entry of its scoped
  -- key, and afterwards that entry is recorded and every other one is as before.
  pub admit_refines :
      (source' key' : Text) {o : AdmitOutcome}
      → (admit io now event key fingerprint t).0 ≡ ok o
      → (o ≡ judge entry event.id fingerprint)
        × (ledger (admit io now event key fingerprint t).1 source' key' ≡ (
            if text_eq event.source.text source' && text_eq key.text key'
            then record_entry entry event.id fingerprint
            else ledger t source' key'))
  admit_refines source' key' {o} h = (
    admit-judge h,
    elim (ok_cases h) [
      | inl (r, f, e) ↦ rw e (ledger_of_kept source' key' r f)
      | inr (f, e) ↦ ledger_of_created _ source' key' f e
    ],
  )

  transaction_ok :
      {o : AdmitOutcome} {u : Table}
      → run_transaction io now event key fingerprint t ≡ ok (o, u)
      → (u ≡ t) ⊎ (u ≡ t ++ new_row now event key fingerprint ∷ [])
  unfolding run_transaction
  transaction_ok h = ground arith

  not-inconsistent :
      {e : StoreError} {m : String}
      → (admit io now event key fingerprint t).0 ≡ err e
      → e ≢ inconsistent m
  unfolding admit from_sqlx
  not-inconsistent h q = ground arith

  -- A call that fails leaves the table as it was, unless the commit happened and its reply was
  -- lost, and then the request is recorded; and the failure is never an inconsistency.
  pub admit_failure :
      (m : String) {e : StoreError}
      → (admit io now event key fingerprint t).0 ≡ err e
      → (((admit io now event key fingerprint t).1 ≡ t)
          ⊎ ((f : SqlxError) × (io.reply ≡ lost f)
              × ((admit io now event key fingerprint t).1
                  ≡ t ++ new_row now event key fingerprint ∷ [])))
        × (e ≢ inconsistent m)
  unfolding admit
  admit_failure m {e} h = (
    elim (commit_failure io.reply t _ h) [
      | inl p ↦ inl p
      | inr (f, a, u, l, q, p) ↦ elim (transaction_ok q) [
        | inl k ↦ inl (p ∙ k)
        | inr k ↦ inr (f, l, p ∙ k)
      ]
    ],
    not-inconsistent h,
  )
