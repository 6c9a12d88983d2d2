-- ===== src/Tests/Admission.antt =====
-- Instances for admissions.
use pulse_stream.Common.{
  ℕ, Bytes, some, ◌&&◌, ◌≡◌, ◌≢◌, refl, codes, text_eq, if◌then◌else◌, none, ok, err, [],
}
use pulse_stream.Json.{is_null}
use pulse_stream.Idempotency.Keys.{IsKey}
use pulse_stream.Store.Errors.{unavailable, SqlxError, lost, commit, ask, from_sqlx, is_outage}
use pulse_stream.Store.Schema.{
  Table, find_by_id, has_key, find_by_key, passes_checks, new_row, insert_event,
}
use pulse_stream.Event.{Event}
use pulse_stream.Store.Settled.{key_settled}
use pulse_stream.Store.History.{History, IsSound-empty}
use pulse_stream.Store.Admit.{AdmitIo, created, replayed, resolve, settle, run_transaction, admit}
use pulse_stream.Store.Admit.Ledger.{judge, ledger, record_entry, admit_refines}
use pulse_stream.Store.Admit.Retry.{IsHealthy}
use pulse_stream.Common.{is_ascii_graphic, arith}
use pulse_stream.Tests.Samples.{order, order_key, order_print, healthy, order-IsValidEvent}

first-created : (admit healthy 3 order order_key order_print []).0 ≡ ok (created order.id)
unfolding admit commit run_transaction settle resolve ask insert_event passes_checks is_null
    find_by_key find_by_id new_row from_sqlx
first-created = refl

admit_refines_example :
    (created order.id ≡ judge (ledger [] (codes "shop") (codes "k1")) order.id order_print)
    × (ledger (admit healthy 3 order order_key order_print []).1 (codes "shop") (codes "k1") ≡ (
        if text_eq (codes "shop") (codes "shop") && text_eq (codes "k1") (codes "k1")
        then record_entry (ledger [] (codes "shop") (codes "k1")) order.id order_print
        else ledger [] (codes "shop") (codes "k1")))
admit_refines_example =
    admit_refines healthy 3 order order_key order_print [] (codes "shop") (codes "k1") first-created

-- A database whose connection breaks after the commit.
abbrev breaking : AdmitIo
breaking = record { begin = none; insert = none; select = none; reply = lost SqlxError.io }

breaking-fails :
    (admit breaking 3 order order_key order_print []).0 ≡ err (unavailable SqlxError.io)
unfolding admit commit run_transaction settle resolve ask insert_event passes_checks is_null
    find_by_key find_by_id new_row from_sqlx is_outage
breaking-fails = refl

breaking-writes : (admit breaking 3 order order_key order_print []).1 ≢ []
unfolding admit commit run_transaction settle resolve ask insert_event passes_checks is_null
    find_by_key find_by_id new_row from_sqlx
breaking-writes h = cc

healthy-IsHealthy : IsHealthy healthy
healthy-IsHealthy = record { begins = refl; inserts = refl; selects = refl; commits = refl }

valid-IsKey : IsKey order_key.text
unfolding is_ascii_graphic
valid-IsKey = record { not_empty = omega arith; short = omega arith; graphic = refl }

abbrev written : Table
written = (admit breaking 3 order order_key order_print []).1

abbrev admitted : Table
admitted = (admit healthy 3 order order_key order_print []).1

abbrev second : Event
second = record order { id = record { uuid = 9 } }

second-replayed : (admit healthy 5 second order_key order_print admitted).0 ≡ ok (replayed order.id)
unfolding admit commit run_transaction settle resolve ask insert_event passes_checks is_null
    find_by_key find_by_id has_key text_eq new_row from_sqlx
second-replayed = refl

key_settled_example :
    (first : ℕ × Bytes) × (record_entry (ledger [] (codes "shop") (codes "k1")) order.id order_print
      ≡ some first)
    × (replayed order.id ≡ judge (some first) second.id order_print)
key_settled_example =
    key_settled healthy 3 order order_key order_print [] admitted healthy 5 second order_key
      order_print IsSound-empty order-IsValidEvent first-created History.here second-replayed refl
      refl
