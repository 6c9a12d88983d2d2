-- ===== src/Tests/Completion.antt =====
-- Instances for a completion: Alice claims the event, completes it, and a client asks for it.
use pulse_stream.Common.{◌≡◌, ◌≢◌, refl, none, some, [], ◌∷◌}
use pulse_stream.Event.{processed}
use pulse_stream.Store.Errors.{acknowledged, commit}
use pulse_stream.Store.Schema.{Row, Table, find_by_id}
use pulse_stream.Store.Complete.{
  complete, complete_rows, complete_row, rows_affected, holds_claim, is_processing, is_owned_by,
}
use pulse_stream.Store.History.{Step, History}
use pulse_stream.Store.Processed.{HasCompletion, history_processed}
use pulse_stream.Api.Events.{Platform}
use pulse_stream.Tests.Samples.{order, alice, zeros, claimed_row, claimed_table}

abbrev completed : Table
completed = (complete acknowledged 20 order.id alice claimed_table).1

abbrev completed_row : Row
completed_row = record claimed_row {
  status = processed;
  processed_at = some 20;
  processing_owner = none;
  lease_expires_at = none;
}

completed-found : find_by_id 7 completed ≡ some completed_row
unfolding find_by_id complete complete_rows complete_row rows_affected holds_claim is_processing
    is_owned_by commit
completed-found = refl

abbrev alice_completes : History claimed_table completed
alice_completes = History.next History.here (Step.completes acknowledged 20 order.id alice)

not-yet : (r : Row) → find_by_id 7 claimed_table ≡ some r → r.status ≢ processed
unfolding find_by_id
not-yet r h e = cc

history_processed_example : HasCompletion 7 alice_completes
history_processed_example =
    history_processed 7 completed_row alice_completes not-yet completed-found refl

abbrev pub platform : Platform
platform = record {
  to_str = λ value. some value;
  uuid_text = record { try_parse = λ t. some 7; display = λ n. n ∷ [] };
  decimal = λ n. n ∷ [];
  to_writer = λ s. [];
  sha256 = λ b. zeros 32;
  to_char = λ n. n ∷ [];
}
