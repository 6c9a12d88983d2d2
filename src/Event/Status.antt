-- ===== src/Event/Status.antt =====
-- The names of the lifecycle states.
use text.Mathlib.TextEquality.{eq_iff}
use pulse_stream.Common.{String, ◌≡◌, ◌↔◌, some, arith}
use pulse_stream.Event.{EventStatus, pending, processing, processed, as_db_str, from_db_str}

-- A column value is read as a state exactly if it is that state's name.
pub from_db_str-as_db_str :
    (value : String) (s : EventStatus) → (from_db_str value ≡ some s) ↔ (value ≡ as_db_str s)
unfolding from_db_str as_db_str
from_db_str-as_db_str value pending =
    ground (arith, eq_iff value "PENDING", eq_iff value "PROCESSING", eq_iff value "PROCESSED")
from_db_str-as_db_str value processing = ground (
  arith,
  eq_iff value "PENDING",
  eq_iff value "PROCESSING",
  eq_iff value "PROCESSED",
  eq_iff "PROCESSING" "PENDING",
)
from_db_str-as_db_str value processed = ground (
  arith,
  eq_iff value "PENDING",
  eq_iff value "PROCESSING",
  eq_iff value "PROCESSED",
  eq_iff "PROCESSED" "PENDING",
  eq_iff "PROCESSED" "PROCESSING",
)
