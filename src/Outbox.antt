-- ===== src/Outbox.antt =====
-- `SQLiteOutbox` of infrastructure/local_broker.py and `OutboxDispatcher` of application/outbox.py.
-- The readings of the clock are arguments. The callback `after_publish` is one too: it returns, or
-- it raises and so interrupts the dispatch between a publication and its mark.
pub mod Delivery
pub mod Dispatch
pub mod Batch
use Prim.Native.String.{compare as compare_text}
use text.Mathlib.Text.{is_le}
use lineage_collection.Prelude.{
  ℕ, suc, ◌+◌, String, Bool, true, false, not, ◌&&◌, Option, none, some, List, [], ◌∷◌, ◌++◌, leb,
  eqb, take, ◌==◌, if◌then◌else◌, select, select_all, update,
}
use lineage_collection.Clock.{text_leb}
use lineage_collection.Models.{OutboxEvent, OutboxStatus, pending, delivered, other}
use lineage_collection.Database.{Database}
use lineage_collection.Database.Transaction.{
  Result, ok, err, Tx, Error, value_error, outbox_state, message_conflict, callback_raised, ◌>>=◌,
  ◌>>◌, guard, modify, pure, gets, or_raise, raise, transaction,
}
use lineage_collection.Broker.{Publication}
use lineage_collection.Broker

abbrev pub is_pending : OutboxEvent → Bool
is_pending e = elim e.status [ pending ↦ true | _ ↦ false ]

abbrev pub has_outbox_id : String → OutboxEvent → Bool
has_outbox_id outbox_id e = e.outbox_id == outbox_id

-- `_outbox_identity` of both events is the same.
unfoldable pub same_identity : OutboxEvent → OutboxEvent → Bool
same_identity a b =
    a.topic == b.topic
    && (a.partition_key == b.partition_key
        && (a.payload_ref == b.payload_ref && a.correlation_id == b.correlation_id))

-- The row that the INSERT of `_append` writes.
unfoldable pub new_event : OutboxEvent → OutboxEvent
new_event e = record e { delivered_at = none }

-- `_append`, after the lookup of the identity
unfoldable pub append_found : OutboxEvent → Option OutboxEvent → Tx Database OutboxEvent
append_found event (some existing) = do
  guard (same_identity existing event) message_conflict
  pure existing
append_found event none = do
  modify (λ db. record db { outbox_events = db.outbox_events ++ new_event event ∷ [] })
  pure event

-- `append` inside a transaction that is already open
unfoldable pub append_tx : OutboxEvent → Tx Database OutboxEvent
append_tx event = do
  guard (is_pending event && eqb event.attempts 0) outbox_state
  existing ← gets (λ db. select (has_outbox_id event.outbox_id) db.outbox_events)
  append_found event existing

unfoldable pub append : OutboxEvent → Database → Result OutboxEvent × Database
append event = transaction (append_tx event)

-- ORDER BY available_at, created_at, outbox_id, each on its text
unfoldable pub event_leb : OutboxEvent → OutboxEvent → Bool
event_leb a b =
    if not (text_leb b.available_at a.available_at)
    then true
    else if not (text_leb a.available_at b.available_at)
    then false
    else if not (text_leb b.created_at a.created_at)
    then true
    else if not (text_leb a.created_at b.created_at)
    then false
    else is_le (compare_text a.outbox_id b.outbox_id)

unfoldable pub insert_event : OutboxEvent → List OutboxEvent → List OutboxEvent
insert_event e [] = e ∷ []
insert_event e (x ∷ xs) = if event_leb e x then e ∷ x ∷ xs else x ∷ insert_event e xs

unfoldable pub sort_events : List OutboxEvent → List OutboxEvent
sort_events [] = []
sort_events (e ∷ es) = insert_event e (sort_events es)

unfoldable pub due : ℕ → OutboxEvent → Bool
due now e = is_pending e && text_leb e.available_at now

-- The SELECT of `pending`; the positive limit is a check of its own.
unfoldable pub pending_rows : ℕ → ℕ → Database → List OutboxEvent
pending_rows limit now db = take limit (sort_events (select_all (due now) db.outbox_events))

unfoldable pub pending_events : ℕ → ℕ → Database → Result (List OutboxEvent)
pending_events limit now db =
    if leb 1 limit then ok (pending_rows limit now db) else err value_error

unfoldable pub delivered_row : ℕ → OutboxEvent → OutboxEvent
delivered_row now e = record e {
  status = delivered;
  attempts = e.attempts + 1;
  delivered_at = some now;
}

unfoldable pub mark_row : String → ℕ → OutboxEvent → Tx Database (Unit {0})
mark_row outbox_id now row = elim row.status [
  | delivered ↦ pure tt
  | other ↦ raise outbox_state
  | pending ↦ modify (λ db. record db {
    outbox_events =
        update (λ e. has_outbox_id outbox_id e && is_pending e) (delivered_row now)
          db.outbox_events;
  })
]

unfoldable pub mark_delivered_tx : String → ℕ → Tx Database (Unit {0})
mark_delivered_tx outbox_id now = do
  row ← gets (λ db. select (has_outbox_id outbox_id) db.outbox_events)
  found ← or_raise row outbox_state
  mark_row outbox_id now found

unfoldable pub mark_delivered : String → ℕ → Database → Result (Unit {0}) × Database
mark_delivered outbox_id now = transaction (mark_delivered_tx outbox_id now)

-- `publish` with its default of five attempts and no supersession key
abbrev pub publication_of : OutboxEvent → Publication
publication_of e = record {
  lane = e.topic;
  group_key = e.partition_key;
  payload_ref = e.payload_ref;
  correlation_id = e.correlation_id;
  message_id = e.outbox_id;
  max_attempts = 5;
  supersession_key = none;
}

-- Each call is a transaction of its own: what ran before an exception stays.
abbrev pub then_run {ℓ} :
    {A : Type 0} {B : Type ℓ}
    → Result A × Database
    → (Database → Result B × Database)
    → Result B × Database
then_run (ok a, db) next = next db
then_run (err e, db) next = (err e, db)

-- The loop of `dispatch`; `clock` gives the readings in the order in which they are taken.
unfoldable pub deliver_all :
    (OutboxEvent → Bool) → (ℕ → ℕ) → ℕ → List OutboxEvent → Database → Result ℕ × Database
deliver_all after_publish clock count [] db = (ok count, db)
deliver_all after_publish clock count (e ∷ es) db =
    then_run (Broker.publish (publication_of e) (clock (count + count + 1)) db) λ published.
      let rest = λ (marked : Database). deliver_all after_publish clock (count + 1) es marked in
      if after_publish e
      then then_run (mark_delivered e.outbox_id (clock (count + count + 2)) published) rest
      else (err callback_raised, published)

unfoldable pub dispatch : (OutboxEvent → Bool) → (ℕ → ℕ) → ℕ → Database → Result ℕ × Database
dispatch after_publish clock limit db =
    if leb 1 limit
    then deliver_all after_publish clock 0 (pending_rows limit (clock 0) db) db
    else (err value_error, db)
