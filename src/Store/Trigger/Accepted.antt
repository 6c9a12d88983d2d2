-- ===== src/Store/Trigger/Accepted.antt =====
-- Which updates the trigger and the CHECK let through; those of the code are among them.
use pulse_stream.Common.{
  ℕ, ◌≡◌, ◌↔◌, refl, Bool, true, false, text_eq_iff, All, Bool-cases, inl, inr, ok, arith, [], ◌∷◌,
  if◌then◌else◌, map,
}
use pulse_stream.Json.{Value}
use pulse_stream.Event.{EventId, WorkerId}
use pulse_stream.Store.Schema.{Row, Table, IsConsistent}
use pulse_stream.Store.Invariant.{IsSound, RowEvolves, Evolves}
use pulse_stream.Store.Claim.{lease_row, candidates, is_chosen, update_chosen}
use pulse_stream.Store.Claim.Keeps.{after_claim-Evolves, after_claim-IsSound}
use pulse_stream.Store.Complete.{holds_claim, complete_row, complete_rows}
use pulse_stream.Store.Complete.Keeps.{complete_rows-Evolves, complete_rows-IsConsistent}
use pulse_stream.Store.Trigger.{
  is_null_column, is_consistent, changes_content, update_row, update_where,
}

-- The CHECK that the database runs is the one that the invariant states.
is_consistent_iff : (r : Row) → (is_consistent r ≡ true) ↔ IsConsistent r
unfolding is_consistent is_null_column
is_consistent_iff r = ground arith

-- The row has the content that it had.
pub record HasContentOf (json_eq : Value → Value → Bool) (old new : Row) : Type 0 where
  pub same_id : new.event_id ≡ old.event_id
  pub same_source : new.source ≡ old.source
  pub same_type : new.event_type ≡ old.event_type
  pub same_payload : json_eq new.payload old.payload ≡ true
  pub same_key : new.idempotency_key ≡ old.idempotency_key
  pub same_fingerprint : new.request_fingerprint ≡ old.request_fingerprint
  pub same_time : new.accepted_at ≡ old.accepted_at

-- The update of a table, without the checks.
abbrev update_all : (Row → Bool) → (Row → Row) → Table → Table
update_all where_holds set t = map (λ r. if where_holds r then set r else r) t

module _ (json_eq : Value → Value → Bool) where
  changes_content_iff :
      (old new : Row) → (changes_content json_eq old new ≡ false) ↔ HasContentOf json_eq old new
  unfolding changes_content
  changes_content_iff old new = ground (
    arith,
    text_eq_iff new.source old.source,
    text_eq_iff new.event_type old.event_type,
    text_eq_iff new.idempotency_key old.idempotency_key,
    text_eq_iff new.request_fingerprint old.request_fingerprint,
  )

  update_row_iff :
      (old new : Row)
      → (update_row json_eq old new ≡ ok new) ↔ (HasContentOf json_eq old new × IsConsistent new)
  unfolding update_row
  update_row_iff old new = ground (arith, changes_content_iff old new, is_consistent_iff new)

  -- A change that a row may undergo passes, whatever JSONB values the database takes for equal.
  update_row_of_RowEvolves :
      ((v : Value) → json_eq v v ≡ true)
      → (r s : Row) → RowEvolves r s
      → IsConsistent s
      → update_row json_eq r s ≡ ok s
  update_row_of_RowEvolves j r s e c =
      let content : HasContentOf json_eq r s = record {
        same_id = e.same_id;
        same_source = e.same_source;
        same_type = e.same_type;
        same_payload = rw e.same_payload (j r.payload);
        same_key = e.same_key;
        same_fingerprint = e.same_fingerprint;
        same_time = e.same_time;
      } in
      (update_row_iff r s).1 (content, c)

  update_where-ok :
      ((v : Value) → json_eq v v ≡ true)
      → (where_holds : Row → Bool) (set : Row → Row) (t : Table)
      → Evolves t (update_all where_holds set t)
      → All IsConsistent (update_all where_holds set t)
      → update_where json_eq where_holds set t ≡ ok (update_all where_holds set t)
  unfolding update_where
  update_where-ok j where_holds set [] e c = refl
  update_where-ok j where_holds set (r ∷ t) e c =
      let rest = update_where-ok j where_holds set t e.1 c.1 in
      elim (Bool-cases (where_holds r)) [
        | inl h ↦
            rw (h, update_row_of_RowEvolves j r (set r) (rw h at e.0) (rw h at c.0), rest) refl
        | inr h ↦ rw (h, rest) refl
      ]

update_chosen_lem :
    (owner : WorkerId) (now lease : ℕ) (chosen t : Table)
    → update_chosen owner now lease chosen t
      ≡ update_all (is_chosen chosen) (lease_row owner now lease) t
unfolding update_chosen
update_chosen_lem owner now lease chosen [] = refl
update_chosen_lem owner now lease chosen (r ∷ t) =
    rw (update_chosen_lem owner now lease chosen t) refl

complete_rows_lem :
    (now : ℕ) (id : EventId) (owner : WorkerId) (t : Table)
    → complete_rows now id owner t ≡ update_all (holds_claim id owner) (complete_row now) t
unfolding complete_rows
complete_rows_lem now id owner [] = refl
complete_rows_lem now id owner (r ∷ t) = rw (complete_rows_lem now id owner t) refl

module _ (json_eq : Value → Value → Bool) (json_eq_refl : (v : Value) → json_eq v v ≡ true)
    (t : Table) (sound : IsSound t) where
  -- With an equality of JSONB that every value has with itself: on a sound table the trigger and
  -- the CHECK of the table refuse no row of the UPDATE of a claim, nor of that of a completion; the
  -- statements leave the tables that the model gives them. In general, they let the update of a row
  -- through exactly if it keeps the content and has fields that agree with its status.
  pub updates_accepted :
      (now : ℕ) (locked : ℕ → Bool) (owner : WorkerId) (limit lease : ℕ) (id : EventId)
      → (update_where json_eq
            (is_chosen (candidates now locked limit t))
            (lease_row owner now lease)
            t
          ≡ ok (update_chosen owner now lease (candidates now locked limit t) t))
        × (update_where json_eq (holds_claim id owner) (complete_row now) t
            ≡ ok (complete_rows now id owner t))
        × ((old new : Row)
            → (update_row json_eq old new ≡ ok new)
              ↔ (HasContentOf json_eq old new × IsConsistent new))
  updates_accepted now locked owner limit lease id =
      let p = update_chosen_lem owner now lease (candidates now locked limit t) t in
      let q = complete_rows_lem now id owner t in
      let v = after_claim-Evolves now locked owner limit lease t sound.ids in
      let s = after_claim-IsSound now locked owner limit lease t sound in
      let w = complete_rows-Evolves now id owner t in
      let c = complete_rows-IsConsistent now id owner t sound.consistent in
      (
        rw p (update_where-ok json_eq json_eq_refl _ _ t (rw p at v) (rw p at s.consistent)),
        rw q (update_where-ok json_eq json_eq_refl _ _ t (rw q at w) (rw q at c)),
        update_row_iff json_eq,
      )
