-- ===== src/Broker/Cases.antt =====
-- What a call of the broker has found and written when it did not raise.
use lineage_collection.Prelude.{
  ℕ, ◌+◌, ◌*◌, ◌≤◌, String, ◌≡◌, ◌⊎◌, inl, inr, Bool, true, ◌&&◌, Option, none, some, arith, leb,
  eqb, select, update, Option-cases,
}
use lineage_collection.Clock.{second}
use lineage_collection.Models.{LaneMessage}
use lineage_collection.Database.{Database, MessageRow}
use lineage_collection.Database.Transaction.{ok}
use lineage_collection.Broker

abbrev pub with_messages : Database → (MessageRow → Bool) → (MessageRow → MessageRow) → Database
with_messages db p f = record db { lane_messages = update p f db.lane_messages }

module _ (db db' : Database) where
  pub publish_ok :
      (p : Broker.Publication) (now : ℕ) {id : String}
      → Broker.publish_tx p now db ≡ ok (id, db')
      → ((r : MessageRow) × (select (Broker.has_id p.message_id) db.lane_messages ≡ some r)
          × (Broker.same_content p r ≡ true)
          × (db' ≡ db))
        ⊎ ((select (Broker.has_id p.message_id) db.lane_messages ≡ none)
            × (1 ≤ p.max_attempts)
            × (db' ≡ Broker.insert_message p now db))
  unfolding Broker.publish_tx Broker.publish_found
  publish_ok p now e = ground arith

  pub acknowledge_ok :
      (m : LaneMessage) (now : ℕ) {u : Unit {0}}
      → Broker.acknowledge_tx m now db ≡ ok (u, db')
      → (r : MessageRow) × (select (Broker.has_id m.message_id) db.lane_messages ≡ some r)
        × (Broker.active_delivery r m now ≡ true)
        × (db' ≡ with_messages db (Broker.delivers m) (Broker.acknowledged now))
  unfolding Broker.acknowledge_tx Broker.required_message Broker.update_delivery
  acknowledge_ok m now e = ground arith

  pub retry_ok :
      (m : LaneMessage) (available_at now : ℕ) (code : String) {u : Unit {0}}
      → Broker.retry_tx m available_at code now db ≡ ok (u, db')
      → (r : MessageRow) × (select (Broker.has_id m.message_id) db.lane_messages ≡ some r)
        × (Broker.active_delivery r m now ≡ true)
        × (db'
            ≡ with_messages db
                (Broker.delivers m)
                (Broker.retried (leb r.max_attempts r.attempts) available_at now code))
  unfolding Broker.retry_tx Broker.required_message Broker.update_delivery
  retry_ok m available_at now code e = ground arith

  pub redrive_ok :
      (message_id : String) (available_at : ℕ) {u : Unit {0}}
      → Broker.redrive_tx message_id available_at db ≡ ok (u, db')
      → db'
        ≡ with_messages db
            (λ r. Broker.has_id message_id r && Broker.is_dead r)
            (Broker.redriven available_at)
  unfolding Broker.redrive_tx Broker.required_message
  redrive_ok message_id available_at e = ground arith

-- The state after a claim of `row`.
abbrev pub claimed : MessageRow → String → String → ℕ → Database → Database
claimed row lane owner expires_at db =
    Broker.record_claim lane row.group_key (Broker.lease_row row owner expires_at db)

-- What a claim of a row has returned.
pub record Claimed (row : MessageRow) (lane owner : String) (expires_at : ℕ) (db db' : Database)
    (found : Option LaneMessage) : Type 0 where
  pub state : db' ≡ claimed row lane owner expires_at db
  pub taken : MessageRow
  pub taken_from : select (λ x. eqb x.sequence row.sequence) db'.lane_messages ≡ some taken
  pub message : LaneMessage
  pub message_of : Broker.lane_message_from_row taken ≡ some message
  pub returned : found ≡ some message

claim_row_ok :
    (db db' : Database) (lane owner : String) (expires_at : ℕ) (row : MessageRow)
    {found : Option LaneMessage}
    → Broker.claim_row lane owner expires_at (some row) db ≡ ok (found, db')
    → Claimed row lane owner expires_at db db' found
unfolding Broker.claim_row
claim_row_ok db db' lane owner expires_at row e =
    elim (Option-cases (
      select (λ x. eqb x.sequence row.sequence)
        (claimed row lane owner expires_at db).lane_messages)) [
          | inl lost ↦ absurd (ground arith)
          | inr (taken, et) ↦ elim (Option-cases (Broker.lane_message_from_row taken)) [
            | inl bare ↦ absurd (ground arith)
            | inr (m, em) ↦ record {
              state = ground arith;
              taken = taken;
              taken_from = ground arith;
              message = m;
              message_of = em;
              returned = ground arith;
            }
          ]
        ]

module _ (db db' : Database) where
  pub claim_ok :
      (lane owner : String) (timeout now : ℕ) {found : Option LaneMessage}
      → Broker.claim_tx lane owner timeout now db ≡ ok (found, db')
      → let recovered = Broker.recover_expired lane now db in
        ((Broker.next_row lane now recovered ≡ none) × (found ≡ none) × (db' ≡ recovered))
        ⊎ ((row : MessageRow) × (Broker.next_row lane now recovered ≡ some row)
            × Claimed row lane owner (now + timeout * second) recovered db' found)
  unfolding Broker.claim_tx Broker.claim_row
  claim_ok lane owner timeout now {found} e =
      elim (Option-cases (Broker.next_row lane now (Broker.recover_expired lane now db))) [
        | inl none_left ↦ inl (ground arith)
        | inr (row, found_row) ↦ inr (
          row,
          found_row,
          claim_row_ok (Broker.recover_expired lane now db) db' lane owner (now + timeout * second)
              row (ground arith),
        )
      ]
