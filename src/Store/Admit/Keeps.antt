-- ===== src/Store/Admit/Keeps.antt =====
-- An admission appends at most one row, and keeps the table sound.
use pulse_stream.Common.{ℕ, ◌≡◌, inl, inr, refl, All-append, none, [], ◌∷◌, ◌++◌}
use pulse_stream.Event.{Event}
use pulse_stream.Event.Labels.{IsValidEvent}
use pulse_stream.Idempotency.{IdempotencyKey, RequestFingerprint}
use pulse_stream.Store.Schema.{Table, IsConsistent, find_by_key, find_by_id, new_row}
use pulse_stream.Store.Invariant.{IsSound, HasLabels, Evolves, Evolves-refl, Evolves-append}
use pulse_stream.Store.Invariant.Appends.{HasUniqueIds-append, HasUniqueKeys-append}
use pulse_stream.Store.Admit.{AdmitIo, admit}
use pulse_stream.Store.Admit.Cases.{admit_cases}

new_row-IsSound :
    (now : ℕ) (event : Event) (key : IdempotencyKey) (fingerprint : RequestFingerprint) (t : Table)
    → IsValidEvent event
    → find_by_key event.source.text key.text t ≡ none
    → find_by_id event.id.uuid t ≡ none
    → IsSound t
    → IsSound (t ++ new_row now event key fingerprint ∷ [])
unfolding new_row
new_row-IsSound now event key fingerprint t v k i s = record {
  ids = HasUniqueIds-append t _ s.ids i;
  keys = HasUniqueKeys-append t _ s.keys k;
  consistent = All-append IsConsistent t _ s.consistent ((refl, refl, refl, refl), tt);
  labels =
      All-append HasLabels t _ s.labels
        (record { source_label = v.source_label; type_label = v.type_label }, tt);
}

module _ (io : AdmitIo) (now : ℕ) (event : Event) (key : IdempotencyKey)
    (fingerprint : RequestFingerprint) (t : Table) where
  pub admit-Evolves : Evolves t (admit io now event key fingerprint t).1
  admit-Evolves = elim (admit_cases io now event key fingerprint t) [
    | inl e ↦ rw e (Evolves-refl t)
    | inr (k, i, e) ↦ rw e (Evolves-append t _)
  ]

  pub admit-IsSound :
      IsValidEvent event → IsSound t → IsSound (admit io now event key fingerprint t).1
  admit-IsSound v s = elim (admit_cases io now event key fingerprint t) [
    | inl e ↦ rw e s
    | inr (k, i, e) ↦ rw e (new_row-IsSound now event key fingerprint t v k i s)
  ]
