-- ===== src/Intake.antt =====
-- `SQLiteIntakeUnitOfWork.accept` of infrastructure/sqlite_control.py: the receipt of an event, its
-- command and its outbox event in one transaction.
-- The callback `after_receipt` is an argument: true when it is absent or returns, false when it raises.
pub mod Parts
pub mod Idempotence
use lineage_collection.Prelude.{
  ℕ, String, Bool, true, false, Option, none, some, List, [], ◌∷◌, ◌++◌, ◌==◌, select,
}
use lineage_collection.Models.{Command, OutboxEvent, DurableAcceptance}
use lineage_collection.Database.{Database, EventRow}
use lineage_collection.Database.Transaction.{
  Result, Tx, idempotency_conflict, callback_raised, ◌>>=◌, ◌>>◌, guard, modify, pure, gets,
  transaction,
}
use lineage_collection.Control.{submit_tx}
use lineage_collection.Outbox.{append_tx}

abbrev pub has_event_id : String → EventRow → Bool
has_event_id id e = e.event_id == id

abbrev pub event_row : String → String → ℕ → EventRow
event_row event_id envelope created_at = record {
  event_id = event_id;
  payload_json = envelope;
  created_at = created_at;
}

-- The first half of `accept`, which returns `created`; the envelope that it keeps is the one given.
unfoldable pub receive : Bool → String → String → ℕ → Option EventRow → Tx Database Bool
receive after_receipt event_id envelope created_at (some existing) = do
  guard (existing.payload_json == envelope) idempotency_conflict
  pure false
receive after_receipt event_id envelope created_at none = do
  modify (λ db. record db { events = db.events ++ event_row event_id envelope created_at ∷ [] })
  guard after_receipt callback_raised
  pure true

unfoldable pub accept_tx :
    Bool → String → String → ℕ → Command → OutboxEvent → ℕ → Tx Database DurableAcceptance
accept_tx after_receipt event_id envelope created_at command outbox now = do
  existing ← gets (λ db. select (has_event_id event_id) db.events)
  created ← receive after_receipt event_id envelope created_at existing
  stored_command ← submit_tx command now
  stored_outbox ← append_tx outbox
  pure (record {
    created = created;
    envelope_json = envelope;
    command = stored_command;
    outbox = stored_outbox;
  })

unfoldable pub accept :
    Bool
    → String
    → String
    → ℕ
    → Command
    → OutboxEvent
    → ℕ
    → Database
    → Result DurableAcceptance × Database
accept after_receipt event_id envelope created_at command outbox now =
    transaction (accept_tx after_receipt event_id envelope created_at command outbox now)
