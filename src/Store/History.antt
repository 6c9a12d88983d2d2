-- ===== src/Store/History.antt =====
-- Histories: any number of API processes and workers, whose statements the database puts in some
-- order, and whatever it answers.
pub mod Changes
use pulse_stream.Common.{ℕ, Bool, []}
use pulse_stream.Event.{Event, EventId, WorkerId}
use pulse_stream.Event.Labels.{IsValidEvent}
use pulse_stream.Idempotency.{IdempotencyKey, RequestFingerprint}
use pulse_stream.Store.Errors.{Reply}
use pulse_stream.Store.Schema.{Table}
use pulse_stream.Store.Admit.{AdmitIo, admit}
use pulse_stream.Store.Admit.Keeps.{admit-Evolves, admit-IsSound}
use pulse_stream.Store.Claim.{claim}
use pulse_stream.Store.Claim.Keeps.{claim-Evolves, claim-IsSound}
use pulse_stream.Store.Complete.{complete}
use pulse_stream.Store.Complete.Keeps.{complete-Evolves, complete-IsSound}
use pulse_stream.Store.Invariant.{IsSound, Evolves, Evolves-refl, Evolves-trans}

-- One call of the store, by an API process or a worker.
pub data Step (t : Table) : Table → Type 0 where
  admits :
      (io : AdmitIo) (now : ℕ) (event : Event) (key : IdempotencyKey)
      (fingerprint : RequestFingerprint)
      → IsValidEvent event
      → Step t (admit io now event key fingerprint t).1
  claims :
      (reply : Reply) (now : ℕ) (locked : ℕ → Bool) (owner : WorkerId) (limit lease : ℕ)
      → Step t (claim reply now locked owner limit lease t).1
  completes :
      (reply : Reply) (now : ℕ) (id : EventId) (owner : WorkerId)
      → Step t (complete reply now id owner t).1

pub data History (t : Table) : Table → Type 0 where
  here : History t t
  next : {u v : Table} → History t u → Step u v → History t v

pub Step-IsSound : {t u : Table} → Step t u → IsSound t → IsSound u
Step-IsSound {t} (admits io now event key fingerprint v) s =
    admit-IsSound io now event key fingerprint t v s
Step-IsSound {t} (claims reply now locked owner limit lease) s =
    claim-IsSound reply now locked owner limit lease t s
Step-IsSound {t} (completes reply now id owner) s = complete-IsSound reply now id owner t s

Step-Evolves : {t u : Table} → Step t u → IsSound t → Evolves t u
Step-Evolves {t} (admits io now event key fingerprint v) s =
    admit-Evolves io now event key fingerprint t
Step-Evolves {t} (claims reply now locked owner limit lease) s =
    claim-Evolves reply now locked owner limit lease t s.ids
Step-Evolves {t} (completes reply now id owner) s = complete-Evolves reply now id owner t

pub IsSound-empty : IsSound []
IsSound-empty = record { ids = tt; keys = tt; consistent = tt; labels = tt }

-- From a sound table every history leaves a sound table.
pub History-IsSound : {t u : Table} → History t u → IsSound t → IsSound u
History-IsSound here s = s
History-IsSound (next h st) s = Step-IsSound st (History-IsSound h s)

-- From a sound table no history deletes a row or changes its content, takes back a delivery
-- attempt, makes a row pending again, or changes a processed row.
pub History-Evolves : {t u : Table} → History t u → IsSound t → Evolves t u
History-Evolves {t} here s = Evolves-refl t
History-Evolves {t} {u} (next h st) s =
    Evolves-trans t _ u (History-Evolves h s) (Step-Evolves st (History-IsSound h s))
