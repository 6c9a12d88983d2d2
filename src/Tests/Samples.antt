-- ===== src/Tests/Samples.antt =====
-- An event, its row in the states of its life, and the tables that hold it.
use pulse_stream.Common.{
  ℕ, zero, suc, refl, Bool, true, false, Bytes, codes, none, some, arith, [], ◌∷◌, is_whitespace,
  is_control, text_eq,
}
use pulse_stream.Json.{scalar, bool, is_null}
use pulse_stream.Event.{Event, WorkerId, pending, processing}
use pulse_stream.Event.Labels.{IsLabel, IsValidEvent}
use pulse_stream.Idempotency.{IdempotencyKey, RequestFingerprint}
use pulse_stream.Store.Errors.{acknowledged}
use pulse_stream.Store.Schema.{Row, Table, find_by_id, find_by_key, has_key}
use pulse_stream.Store.Invariant.{IsSound}
use pulse_stream.Store.Admit.{AdmitIo}

abbrev pub order : Event
order = record {
  id = record { uuid = 7 };
  source = record { text = codes "shop" };
  event_type = record { text = codes "order" };
  payload = scalar (bool true);
  accepted_at = 0;
}

abbrev pub order_key : IdempotencyKey
order_key = record { text = codes "k1" }

abbrev pub zeros : ℕ → Bytes
zeros zero = []
zeros (suc n) = 0 ∷ zeros n

abbrev pub order_print : RequestFingerprint
order_print = record { bytes = zeros 32 }

abbrev pub healthy : AdmitIo
healthy = record { begin = none; insert = none; select = none; reply = acknowledged }

abbrev pub alice : WorkerId
alice = record { uuid = 1 }

abbrev pub bob : WorkerId
bob = record { uuid = 2 }

-- tokio numbers its tasks.
abbrev pub one_by_one : ℕ → ℕ
one_by_one n = n

abbrev pub unlocked : ℕ → Bool
unlocked id = false

abbrev pub pending_row : Row
pending_row = record {
  event_id = 7;
  source = codes "shop";
  event_type = codes "order";
  payload = scalar (bool true);
  idempotency_key = codes "k1";
  request_fingerprint = zeros 32;
  accepted_at = 3;
  status = pending;
  processing_owner = none;
  processing_started_at = none;
  lease_expires_at = none;
  processed_at = none;
  delivery_attempts = 0;
}

-- Claimed by alice at 10, for 100 microseconds.
abbrev pub claimed_row : Row
claimed_row = record pending_row {
  status = processing;
  processing_owner = some 1;
  processing_started_at = some 10;
  lease_expires_at = some 110;
  delivery_attempts = 1;
}

abbrev pub pending_table : Table
pending_table = pending_row ∷ []

abbrev pub claimed_table : Table
claimed_table = claimed_row ∷ []

shop-IsLabel : IsLabel 100 (codes "shop")
unfolding is_whitespace is_control
shop-IsLabel = record { visible = refl; short = omega arith; printable = refl }

order-IsLabel : IsLabel 150 (codes "order")
unfolding is_whitespace is_control
order-IsLabel = record { visible = refl; short = omega arith; printable = refl }

pub order-IsValidEvent : IsValidEvent order
unfolding is_null
order-IsValidEvent = record {
  source_label = shop-IsLabel;
  type_label = order-IsLabel;
  not_null = refl;
}

pub pending_table-IsSound : IsSound pending_table
unfolding find_by_id find_by_key
pending_table-IsSound = record {
  ids = (refl, tt);
  keys = (refl, tt);
  consistent = ((refl, refl, refl, refl), tt);
  labels = (record { source_label = shop-IsLabel; type_label = order-IsLabel }, tt);
}

pub claimed_table-IsSound : IsSound claimed_table
unfolding find_by_id find_by_key
claimed_table-IsSound = record {
  ids = (refl, tt);
  keys = (refl, tt);
  consistent = ((λ h. cc, λ h. cc, λ h. cc, refl, omega arith), tt);
  labels = (record { source_label = shop-IsLabel; type_label = order-IsLabel }, tt);
}

-- A second event.
abbrev pub other_row : Row
other_row = record pending_row { event_id = 8; idempotency_key = codes "k2"; accepted_at = 4 }

abbrev pub two_table : Table
two_table = pending_row ∷ other_row ∷ []

pub two_table-IsSound : IsSound two_table
unfolding find_by_id find_by_key has_key text_eq
two_table-IsSound = record {
  ids = (refl, (refl, tt));
  keys = (refl, (refl, tt));
  consistent = ((refl, refl, refl, refl), ((refl, refl, refl, refl), tt));
  labels = (
    record { source_label = shop-IsLabel; type_label = order-IsLabel },
    (record { source_label = shop-IsLabel; type_label = order-IsLabel }, tt),
  );
}
