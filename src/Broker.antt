-- ===== src/Broker.antt =====
-- `LocalLaneBroker` of infrastructure/local_broker.py: lanes of messages with FIFO groups, leases
-- with an epoch, and a dead-letter status. The clock's reading is the argument `now` of each call.
mod Rows
pub mod Cases
pub mod Turn
pub mod Selection
pub mod History
pub mod Heads
pub mod Fifo
pub mod Delivery
pub mod Evolution
pub mod Dedup
pub mod Fencing
pub mod Invariant
unfoldable pub use Rows.*
use lineage_collection.Prelude.{
  ℕ, suc, ◌+◌, ◌*◌, String, Bool, true, false, not, ◌&&◌, Option, none, some, List, [], ◌∷◌, ◌++◌,
  map, leb, eqb, max, nonempty, same_option, ◌==◌, if◌then◌else◌, select, select_all, update,
  matching,
}
use mathlib.Core.Option
use lineage_collection.Clock.{second, in_calendar}
use lineage_collection.Models.{LaneMessage}
use lineage_collection.Database.{Database, MessageRow, MessageStatus, available, GroupRow}
use lineage_collection.Database.Transaction.{
  Result, Tx, value_error, overflow_error, message_state, message_conflict, stale_delivery, ◌>>=◌,
  ◌>>◌, guard, modify, pure, gets, or_raise, transaction,
}

-- What a caller of `publish` gives.
pub record Publication : Type 0 where
  pub lane : String
  pub group_key : String
  pub payload_ref : String
  pub correlation_id : String
  pub message_id : String
  pub max_attempts : ℕ
  pub supersession_key : Option String

-- The immutable part of an existing message is the one requested.
unfoldable pub same_content : Publication → MessageRow → Bool
same_content p r =
    r.lane == p.lane
    && (r.group_key == p.group_key
        && (r.payload_ref == p.payload_ref
            && (r.correlation_id == p.correlation_id
                && (same_option r.supersession_key p.supersession_key
                    && eqb r.max_attempts p.max_attempts))))

unfoldable pub new_message : Publication → ℕ → ℕ → MessageRow
new_message p now sequence = record {
  sequence = sequence;
  message_id = p.message_id;
  lane = p.lane;
  group_key = p.group_key;
  payload_ref = p.payload_ref;
  correlation_id = p.correlation_id;
  status = available;
  available_at = now;
  attempts = 0;
  max_attempts = p.max_attempts;
  delivery_epoch = 0;
  lease_owner = none;
  lease_expires_at = none;
  supersession_key = p.supersession_key;
  published_at = now;
  acknowledged_at = none;
  dead_at = none;
  last_error = none;
}

-- The older head's messages are retired only if the message has a supersession key.
unfoldable pub retire_older : String → Option String → List MessageRow → List MessageRow
retire_older lane none rows = rows
retire_older lane (some key) rows = update (of_older_head lane key) retired rows

-- AUTOINCREMENT gives a number above every one given before.
unfoldable pub insert_message : Publication → ℕ → Database → Database
unfolding retire_older new_message
insert_message p now db = record db {
  lane_messages =
      retire_older p.lane p.supersession_key db.lane_messages
      ++ new_message p now (suc db.lane_sequence) ∷ [];
  lane_sequence = suc db.lane_sequence;
}

-- After the lookup of the message identity.
unfoldable pub publish_found : Publication → ℕ → Option MessageRow → Tx Database String
publish_found p now (some existing) = do
  guard (same_content p existing) message_conflict
  pure p.message_id
publish_found p now none = do modify (insert_message p now); pure p.message_id

unfoldable pub publish_tx : Publication → ℕ → Tx Database String
publish_tx p now = do
  guard
      (nonempty p.lane
        && (nonempty p.group_key
            && (nonempty p.payload_ref && (nonempty p.correlation_id && nonempty p.message_id))))
      value_error
  guard (leb 1 p.max_attempts) value_error
  existing ← gets (λ db. select (has_id p.message_id) db.lane_messages)
  publish_found p now existing

unfoldable pub publish : Publication → ℕ → Database → Result String × Database
unfolding publish_tx
publish p now = transaction (publish_tx p now)

unfoldable pub recover_expired : String → ℕ → Database → Database
recover_expired lane now db = record db {
  lane_messages = update (timed_out lane now) (recovered now) db.lane_messages;
}

-- COALESCE(MAX(last_claim_order), 0)
unfoldable pub max_claim_order : List GroupRow → ℕ
max_claim_order [] = 0
max_claim_order (g ∷ gs) = max g.last_claim_order (max_claim_order gs)

-- The UPSERT of `lane_group_state`.
unfoldable pub set_group : String → String → ℕ → List GroupRow → List GroupRow
unfolding of_group
set_group lane group order [] =
    record { lane = lane; group_key = group; last_claim_order = order } ∷ []
set_group lane group order (g ∷ gs) =
    if of_group lane group g
    then record g { last_claim_order = order } ∷ gs
    else g ∷ set_group lane group order gs

unfoldable pub record_claim : String → String → Database → Database
unfolding max_claim_order set_group
record_claim lane group db = record db {
  lane_groups = set_group lane group (max_claim_order db.lane_groups + 1) db.lane_groups;
}

unfoldable pub lease_row : MessageRow → String → ℕ → Database → Database
lease_row row owner expires_at db = record db {
  lane_messages = update (claims_row row) (leased row owner expires_at) db.lane_messages;
}

-- The SELECT of `claim`.
unfoldable pub next_row : String → ℕ → Database → Option MessageRow
next_row lane now db =
    first_in_turn db.lane_groups (select_all (eligible db.lane_messages lane now) db.lane_messages)

unfoldable pub claim_row :
    String → String → ℕ → Option MessageRow → Tx Database (Option LaneMessage)
claim_row lane owner expires_at none = pure none
claim_row lane owner expires_at (some row) = do
  changed ← gets (λ db. matching (claims_row row) db.lane_messages)
  modify (lease_row row owner expires_at)
  guard (eqb changed 1) message_state
  modify (record_claim lane row.group_key)
  claimed ← gets (λ db. select (λ r. eqb r.sequence row.sequence) db.lane_messages)
  claimed_row ← or_raise claimed value_error
  message ← or_raise (lane_message_from_row claimed_row) value_error
  pure (some message)

unfoldable pub claim_tx : String → String → ℕ → ℕ → Tx Database (Option LaneMessage)
claim_tx lane owner timeout now = do
  guard (nonempty lane && nonempty owner) value_error
  guard (leb 1 timeout) value_error
  guard (in_calendar (now + timeout * second)) overflow_error
  modify (recover_expired lane now)
  row ← gets (next_row lane now)
  claim_row lane owner (now + timeout * second) row

-- `timeout` is `visibility_timeout_seconds`.
unfoldable pub claim : String → String → ℕ → ℕ → Database → Result (Option LaneMessage) × Database
unfolding claim_tx
claim lane owner timeout now = transaction (claim_tx lane owner timeout now)

-- `_required_message`
unfoldable pub required_message : String → Tx Database MessageRow
required_message message_id = do
  row ← gets (λ db. select (has_id message_id) db.lane_messages)
  or_raise row message_state

-- An UPDATE that must change exactly one row of the delivery.
unfoldable pub update_delivery : LaneMessage → (MessageRow → MessageRow) → Tx Database (Unit {0})
update_delivery m f = do
  changed ← gets (λ db. matching (delivers m) db.lane_messages)
  modify (λ db. record db { lane_messages = update (delivers m) f db.lane_messages })
  guard (eqb changed 1) stale_delivery

unfoldable pub acknowledge_tx : LaneMessage → ℕ → Tx Database (Unit {0})
acknowledge_tx m now = do
  row ← required_message m.message_id
  guard (active_delivery row m now) stale_delivery
  update_delivery m (acknowledged now)

unfoldable pub acknowledge : LaneMessage → ℕ → Database → Result (Unit {0}) × Database
unfolding acknowledge_tx
acknowledge m now = transaction (acknowledge_tx m now)

unfoldable pub retry_tx : LaneMessage → ℕ → String → ℕ → Tx Database (Unit {0})
retry_tx m available_at error_code now = do
  guard (nonempty error_code) value_error
  row ← required_message m.message_id
  guard (active_delivery row m now) stale_delivery
  update_delivery m (retried (leb row.max_attempts row.attempts) available_at now error_code)

unfoldable pub retry : LaneMessage → ℕ → String → ℕ → Database → Result (Unit {0}) × Database
unfolding retry_tx
retry m available_at error_code now = transaction (retry_tx m available_at error_code now)

unfoldable pub redrive_tx : String → ℕ → Tx Database (Unit {0})
redrive_tx message_id available_at = do
  row ← required_message message_id
  guard (is_dead row) message_state
  modify (λ db. record db {
    lane_messages =
        update (λ r. has_id message_id r && is_dead r) (redriven available_at) db.lane_messages;
  })

unfoldable pub redrive : String → ℕ → Database → Result (Unit {0}) × Database
unfolding redrive_tx
redrive message_id available_at = transaction (redrive_tx message_id available_at)

-- Rows stand in the order of their sequence numbers.
unfoldable pub dead_letters : String → Database → List String
dead_letters lane db =
    map (λ r. r.message_id) (select_all (λ r. r.lane == lane && is_dead r) db.lane_messages)

unfoldable pub message_status : String → Database → Option MessageStatus
message_status message_id db =
    Option.map (λ r. r.status) (select (has_id message_id) db.lane_messages)

unfoldable pub message_count : String → Database → ℕ
message_count message_id db = matching (has_id message_id) db.lane_messages
