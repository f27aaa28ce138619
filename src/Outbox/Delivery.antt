-- ===== src/Outbox/Delivery.antt =====
-- The events and messages of a dispatch, under `publish` and `mark_delivered`.
use mathlib.Core.Path.{subst}
use lineage_collection.Prelude.{
  ℕ, String, ◌≡◌, refl, sym, ◌∙◌, ◌⊎◌, inl, inr, true, ◌&&◌, some, arith, select, select-Has,
  select-update, update, set_if, Option-cases,
}
use lineage_collection.Models.{OutboxEvent, delivered}
use lineage_collection.Database.{Database, MessageRow}
use lineage_collection.Database.Transaction.{ok, transaction-keeps, committed}
use lineage_collection.Broker.{Publication, has_id, same_content}
use lineage_collection.Broker
use lineage_collection.Broker.Cases.{publish_ok}
use lineage_collection.Broker.Evolution.{step-Reaches, Evolves-refl}
use lineage_collection.Broker.Dedup.{published-Reaches, same_content-Evolves}
use lineage_collection.Broker.History.{publishes, step}
use lineage_collection.Outbox
use lineage_collection.Outbox.{
  is_pending, has_outbox_id, publication_of, mark_delivered, mark_delivered_tx, deliver_all,
  delivered_row, then_run,
}

-- The message of the event stands in the lane, with the event's content.
abbrev pub IsSent : OutboxEvent → Database → Type 0
IsSent e db =
    (m : MessageRow) × (select (has_id e.outbox_id) db.lane_messages ≡ some m)
    × (same_content (publication_of e) m ≡ true)

-- The event of this identity is DELIVERED.
abbrev pub IsMarked : String → Database → Type 0
IsMarked id db =
    (e : OutboxEvent) × (select (has_outbox_id id) db.outbox_events ≡ some e)
    × (e.status ≡ delivered)

-- Statements on one table leave the other alone.
outbox-insert_message :
    (p : Publication) (now : ℕ) (db : Database)
    → (Broker.insert_message p now db).outbox_events ≡ db.outbox_events
unfolding Broker.insert_message
outbox-insert_message p now db = refl

outbox-publish :
    (p : Publication) (now : ℕ) (db : Database)
    → (Broker.publish p now db).1.outbox_events ≡ db.outbox_events
unfolding Broker.publish
outbox-publish p now db =
    transaction-keeps (λ s. s.outbox_events ≡ db.outbox_events) (Broker.publish_tx p now) db refl
      λ id db' e. elim (publish_ok db db' p now e) [
        | inl (_, _, _, same) ↦ rw same
        | inr (_, _, new) ↦ rw new (outbox-insert_message p now db)
      ]

mark_delivered_ok :
    (id : String) (now : ℕ) (db db' : Database) {u : Unit {0}}
    → mark_delivered_tx id now db ≡ ok (u, db')
    → (row : OutboxEvent) × (select (has_outbox_id id) db.outbox_events ≡ some row)
      × ((row.status ≡ delivered) × (db' ≡ db)
          ⊎ (is_pending row ≡ true)
            × (db' ≡ record db {
              outbox_events =
                  update
                    (λ e. has_outbox_id id e && is_pending e)
                    (delivered_row now)
                    db.outbox_events;
            }))
unfolding mark_delivered_tx Outbox.mark_row
mark_delivered_ok id now db db' e =
    elim (Option-cases (select (has_outbox_id id) db.outbox_events)) [
      | inl missing ↦ absurd (ground arith)
      | inr (row, found) ↦ (row, found, ground arith)
    ]

pub messages-mark_delivered :
    (id : String) (now : ℕ) (db : Database)
    → (mark_delivered id now db).1.lane_messages ≡ db.lane_messages
unfolding mark_delivered
messages-mark_delivered id now db =
    transaction-keeps (λ s. s.lane_messages ≡ db.lane_messages) (mark_delivered_tx id now) db refl
      λ u db' e.
        let (row, _, c) = mark_delivered_ok id now db db' e in
        elim c [ inl (_, same) ↦ rw same | inr (_, written) ↦ rw written ]

-- The UPDATE of a mark does not change which event a lookup by identity finds.
select-mark :
    (id other_id : String) (now : ℕ) (db : Database) (e : OutboxEvent)
    → select (has_outbox_id id) db.outbox_events ≡ some e
    → select (has_outbox_id id) (
        update (λ x. has_outbox_id other_id x && is_pending x) (delivered_row now) db.outbox_events)
      ≡ some (set_if (λ x. has_outbox_id other_id x && is_pending x) (delivered_row now) e)
select-mark id other_id now db e found =
    select-update (has_outbox_id id) (λ x. has_outbox_id other_id x && is_pending x)
      (delivered_row now) db.outbox_events (λ x. unfold Outbox.delivered_row in ground arith)
    ∙ rw found

-- A mark leaves a delivered event delivered ...
update-IsMarked :
    (id other_id : String) (now : ℕ) (db : Database)
    → IsMarked id db
    → IsMarked id (record db {
      outbox_events =
          update
            (λ e. has_outbox_id other_id e && is_pending e)
            (delivered_row now)
            db.outbox_events;
    })
update-IsMarked id other_id now db (e, found, done) = (
  set_if (λ x. has_outbox_id other_id x && is_pending x) (delivered_row now) e,
  select-mark id other_id now db e found,
  unfold Outbox.delivered_row in ground arith,
)

-- ... and makes its own event so.
update-IsMarked_self :
    (id : String) (now : ℕ) (db : Database) (row : OutboxEvent)
    → select (has_outbox_id id) db.outbox_events ≡ some row
    → has_outbox_id id row ≡ true
    → is_pending row ≡ true
    → IsMarked id (record db {
      outbox_events =
          update (λ e. has_outbox_id id e && is_pending e) (delivered_row now) db.outbox_events;
    })
update-IsMarked_self id now db row found named waiting = (
  set_if (λ x. has_outbox_id id x && is_pending x) (delivered_row now) row,
  select-mark id id now db row found,
  unfold Outbox.delivered_row in ground arith,
)

pub mark_delivered-IsMarked :
    (id : String) (now : ℕ) (db db' : Database) (u : Unit {0})
    → mark_delivered id now db ≡ (ok u, db')
    → IsMarked id db'
unfolding mark_delivered
mark_delivered-IsMarked id now db db' u e =
    let (row, found, c) =
      mark_delivered_ok id now db db' (committed (mark_delivered_tx id now) db u db' e) in
    elim c [
      | inl (done, same) ↦ subst (IsMarked id) (sym same) (row, found, done)
      | inr (waiting, written) ↦ subst (IsMarked id) (sym written) (
          update-IsMarked_self id now db row found
            (select-Has (has_outbox_id id) db.outbox_events found).1 waiting)
    ]

mark_delivered-keeps_IsMarked :
    (id other_id : String) (now : ℕ) (db : Database)
    → IsMarked id db
    → IsMarked id (mark_delivered other_id now db).1
unfolding mark_delivered
mark_delivered-keeps_IsMarked id other_id now db h =
    transaction-keeps (IsMarked id) (mark_delivered_tx other_id now) db h λ u db' e.
      let (row, _, c) = mark_delivered_ok other_id now db db' e in
      elim c [
        | inl (_, same) ↦ subst (IsMarked id) (sym same) h
        | inr (_, written) ↦
            subst (IsMarked id) (sym written) (update-IsMarked id other_id now db h)
      ]

pub publish-IsSent :
    (e : OutboxEvent) (now : ℕ) (db db' : Database) (id : String)
    → Broker.publish (publication_of e) now db ≡ (ok id, db')
    → IsSent e db'
publish-IsSent e now db db' id h =
    let (r, content, (r', found, evolved)) = published-Reaches (publication_of e) now db db' id h in
    (r', found, same_content-Evolves (publication_of e) r r' evolved content)

publish-keeps_IsSent :
    (e : OutboxEvent) (p : Publication) (now : ℕ) (db : Database)
    → IsSent e db
    → IsSent e (Broker.publish p now db).1
unfolding step
publish-keeps_IsSent e p now db (m, found, content) =
    let (r, found', evolved) =
      step-Reaches e.outbox_id m db (publishes p now) (m, found, Evolves-refl m) in
    (r, found', same_content-Evolves (publication_of e) m r evolved content)

-- The event is in the lane and marked as delivered.
abbrev pub IsDelivered : OutboxEvent → Database → Type 0
IsDelivered e db = IsSent e db × IsMarked e.outbox_id db

pub publish-keeps_IsDelivered :
    (e : OutboxEvent) (p : Publication) (now : ℕ) (db : Database)
    → IsDelivered e db
    → IsDelivered e (Broker.publish p now db).1
publish-keeps_IsDelivered e p now db (sent, (x, found, done)) =
    (publish-keeps_IsSent e p now db sent, (x, rw (outbox-publish p now db) found, done))

pub mark_delivered-keeps_IsDelivered :
    (e : OutboxEvent) (id : String) (now : ℕ) (db : Database)
    → IsDelivered e db
    → IsDelivered e (mark_delivered id now db).1
mark_delivered-keeps_IsDelivered e id now db ((m, found, content), marked) = (
  (m, rw (messages-mark_delivered id now db) found, content),
  mark_delivered-keeps_IsMarked e.outbox_id id now db marked,
)
