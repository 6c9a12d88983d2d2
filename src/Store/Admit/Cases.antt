-- ===== src/Store/Admit/Cases.antt =====
-- What an admission can do to the table.
use pulse_stream.Common.{ℕ, ◌≡◌, ◌⊎◌, none, arith, [], ◌∷◌, ◌++◌}
use pulse_stream.Event.{Event}
use pulse_stream.Idempotency.{IdempotencyKey, RequestFingerprint}
use pulse_stream.Store.Schema.{Table, find_by_key, find_by_id, new_row}
use pulse_stream.Store.Admit.{AdmitIo, admit}

pub admit_cases :
    (io : AdmitIo) (now : ℕ) (event : Event) (key : IdempotencyKey)
    (fingerprint : RequestFingerprint) (table : Table)
    → ((admit io now event key fingerprint table).1 ≡ table)
      ⊎ ((find_by_key event.source.text key.text table ≡ none)
          × (find_by_id event.id.uuid table ≡ none)
          × ((admit io now event key fingerprint table).1
              ≡ table ++ new_row now event key fingerprint ∷ []))
unfolding admit
admit_cases io now event key fingerprint table = ground arith
