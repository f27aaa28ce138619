-- ===== src/Intake/Parts.antt =====
-- The parts of an acceptance: the receipt, the submission and the outbox event.
use lineage_collection.Prelude.{
  ℕ, String, ◌≡◌, sym, inl, inr, Bool, true, false, none, some, ◌==◌, arith, eq_refl, select,
  select-append, Option-cases,
}
use lineage_collection.Models.{Command, OutboxEvent, DurableAcceptance}
use lineage_collection.Database.{Database, CommandRow, EventRow}
use lineage_collection.Database.Transaction.{ok}
use lineage_collection.Control
use lineage_collection.Control.{has_key, new_command, same_submission}
use lineage_collection.Control.Cases.{submit_ok}
use lineage_collection.Control.Submission.{same_submission_refl}
use lineage_collection.Outbox
use lineage_collection.Outbox.{has_outbox_id, same_identity, new_event}
use lineage_collection.Intake.{has_event_id, event_row, receive}

-- What a committed acceptance leaves in the tables.
pub record IsDurable (event_id envelope : String) (command : Command) (outbox : OutboxEvent)
    (db : Database) (a : DurableAcceptance) : Type 0 where
  pub receipt : EventRow
  pub receipt_at : select (has_event_id event_id) db.events ≡ some receipt
  pub receipt_is : (receipt.payload_json == envelope) ≡ true
  pub row : CommandRow
  pub row_at : select (has_key command.idempotency_key) db.commands ≡ some row
  pub row_is : row.command ≡ a.command
  pub row_same : same_submission row.command command ≡ true
  pub event : OutboxEvent
  pub event_at : select (has_outbox_id outbox.outbox_id) db.outbox_events ≡ some event
  pub event_same : same_identity event outbox ≡ true
  pub event_is : outbox.delivered_at ≡ none → event ≡ a.outbox
  pub envelope_is : a.envelope_json ≡ envelope

same_identity_refl : (e : OutboxEvent) → same_identity (new_event e) e ≡ true
unfolding same_identity new_event
same_identity_refl e = ground (
  arith,
  eq_refl e.topic,
  eq_refl e.partition_key,
  eq_refl e.payload_ref,
  eq_refl e.correlation_id,
)

pub receive_ok :
    (after_receipt : Bool) (event_id envelope : String) (created_at : ℕ) (db db' : Database)
    {created : Bool}
    → receive after_receipt event_id envelope created_at
        (select (has_event_id event_id) db.events)
        db
      ≡ ok (created, db')
    → (r : EventRow) × (select (has_event_id event_id) db'.events ≡ some r)
      × ((r.payload_json == envelope) ≡ true)
unfolding receive
receive_ok after_receipt event_id envelope created_at db db' e =
    elim (Option-cases (select (has_event_id event_id) db.events)) [
      | inl fresh ↦ (
        event_row event_id envelope created_at,
        ground (
          arith,
          eq_refl event_id,
          select-append (has_event_id event_id) db.events (event_row event_id envelope created_at)
              fresh,
        ),
        eq_refl envelope,
      )
      | inr (r, found) ↦ (r, ground arith, ground arith)
    ]

pub submit_durable :
    (c : Command) (now : ℕ) (db db' : Database) {stored : Command}
    → Control.submit_tx c now db ≡ ok (stored, db')
    → (row : CommandRow) × (select (has_key c.idempotency_key) db'.commands ≡ some row)
      × (row.command ≡ stored)
      × (same_submission row.command c ≡ true)
      × (db'.events ≡ db.events)
submit_durable c now db db' e = elim (submit_ok db db' c now e) [
  | inl (row, found, same, is, unchanged) ↦ (row, rw unchanged found, sym is, same, ground arith)
  | inr (fresh, _, _, _, _, is, written) ↦ (
    new_command c now,
    rw written (
        unfold new_command in
        ground (
          arith,
          eq_refl c.idempotency_key,
          select-append (has_key c.idempotency_key) db.commands (new_command c now) fresh,
        )),
    unfold new_command in sym is,
    unfold new_command in same_submission_refl c,
    ground arith,
  )
]

pub append_ok :
    (outbox : OutboxEvent) (db db' : Database) {stored : OutboxEvent}
    → Outbox.append_tx outbox db ≡ ok (stored, db')
    → (event : OutboxEvent) × (select (has_outbox_id outbox.outbox_id) db'.outbox_events
        ≡ some event)
      × (same_identity event outbox ≡ true)
      × (outbox.delivered_at ≡ none → event ≡ stored)
      × (db'.events ≡ db.events)
      × (db'.commands ≡ db.commands)
unfolding Outbox.append_tx Outbox.append_found
append_ok outbox db db' e =
    elim (Option-cases (select (has_outbox_id outbox.outbox_id) db.outbox_events)) [
      | inl fresh ↦ (
        new_event outbox,
        unfold new_event in
            ground (
              arith,
              eq_refl outbox.outbox_id,
              select-append (has_outbox_id outbox.outbox_id) db.outbox_events (new_event outbox)
                  fresh,
            ),
        same_identity_refl outbox,
        unfold new_event in λ none_yet. ground arith,
        ground arith,
        ground arith,
      )
      | inr (event, found) ↦
          (event, ground arith, ground arith, ground arith, ground arith, ground arith)
    ]

pub submit_again :
    (c : Command) (now later : ℕ) (db db' s s' : Database) (row : CommandRow) {stored : Command}
    → Control.submit_tx c now s ≡ ok (stored, s')
    → select (has_key c.idempotency_key) db'.commands ≡ some row
    → same_submission row.command c ≡ true
    → Control.submit_tx c later db' ≡ ok (row.command, db')
unfolding Control.submit_tx Control.submit_found
submit_again c now later db db' s s' row e found same = ground arith

pub append_again :
    (outbox : OutboxEvent) (db' s s' : Database) (event : OutboxEvent) {stored : OutboxEvent}
    → Outbox.append_tx outbox s ≡ ok (stored, s')
    → select (has_outbox_id outbox.outbox_id) db'.outbox_events ≡ some event
    → same_identity event outbox ≡ true
    → Outbox.append_tx outbox db' ≡ ok (event, db')
unfolding Outbox.append_tx Outbox.append_found
append_again outbox db' s s' event e found same = ground arith

pub receive_again :
    (after_receipt : Bool) (event_id envelope : String) (created_at : ℕ) (db : Database)
    (r : EventRow)
    → select (has_event_id event_id) db.events ≡ some r
    → (r.payload_json == envelope) ≡ true
    → receive after_receipt event_id envelope created_at
        (select (has_event_id event_id) db.events)
        db
      ≡ ok (false, db)
unfolding receive
receive_again after_receipt event_id envelope created_at db r found same = ground arith

-- The parts of a committed acceptance.
pub record Parts (after_receipt : Bool) (event_id envelope : String) (created_at : ℕ)
    (command : Command) (outbox : OutboxEvent) (now : ℕ) (db db' : Database) (a : DurableAcceptance)
    : Type 0 where
  pub created : Bool
  pub received : Database
  pub submitted : Database
  pub at_receipt :
      receive after_receipt event_id envelope created_at
        (select (has_event_id event_id) db.events)
        db
      ≡ ok (created, received)
  pub at_command : Control.submit_tx command now received ≡ ok (a.command, submitted)
  pub at_outbox : Outbox.append_tx outbox submitted ≡ ok (a.outbox, db')
  pub envelope_is : a.envelope_json ≡ envelope
