-- ===== src/Database.antt =====
-- The SQLite tables that the control plane writes (migrations.py and the table `events` of db.py),
-- and `Database.transaction` of db.py: a body that raises is rolled back.
pub mod Transaction
use lineage_collection.Prelude.{ℕ, String, Option, none, some, List, []}
use lineage_collection.Models.{Command, OutboxEvent}

-- A row of `commands`: the columns of the command, and those of its lease.
pub record CommandRow : Type 0 where
  pub command : Command
  pub lease_owner : Option String
  pub lease_epoch : ℕ
  pub lease_expires_at : Option ℕ
  pub last_error_code : Option String
  pub updated_at : ℕ

pub data AttemptStatus : Type 0 where
  running lease_expired completed failed : AttemptStatus

pub record AttemptRow : Type 0 where
  pub command_id : String
  pub attempt : ℕ
  pub lease_epoch : ℕ
  pub owner : String
  pub status : AttemptStatus
  pub started_at : ℕ
  pub completed_at : Option ℕ
  pub error_code : Option String

pub record StageRow : Type 0 where
  pub idempotency_key : String
  pub command_id : String
  pub output_ref : String
  pub output_checksum : String
  pub lease_epoch : ℕ
  pub completed_at : ℕ

pub data MessageStatus : Type 0 where
  available in_flight acked dead superseded : MessageStatus

pub record MessageRow : Type 0 where
  pub sequence : ℕ
  pub message_id : String
  pub lane : String
  pub group_key : String
  pub payload_ref : String
  pub correlation_id : String
  pub status : MessageStatus
  pub available_at : ℕ
  pub attempts : ℕ
  pub max_attempts : ℕ
  pub delivery_epoch : ℕ
  pub lease_owner : Option String
  pub lease_expires_at : Option ℕ
  pub supersession_key : Option String
  pub published_at : ℕ
  pub acknowledged_at : Option ℕ
  pub dead_at : Option ℕ
  pub last_error : Option String

pub record GroupRow : Type 0 where
  pub lane : String
  pub group_key : String
  pub last_claim_order : ℕ

-- The table `events` of db.py; every row that this model inserts is ACCEPTED.
pub record EventRow : Type 0 where
  pub event_id : String
  pub payload_json : String
  pub created_at : ℕ

-- `lane_sequence` is what AUTOINCREMENT keeps: the greatest sequence number ever given.
pub record Database : Type 0 where
  pub events : List EventRow
  pub commands : List CommandRow
  pub attempts : List AttemptRow
  pub stage_results : List StageRow
  pub outbox_events : List OutboxEvent
  pub lane_messages : List MessageRow
  pub lane_groups : List GroupRow
  pub lane_sequence : ℕ

abbrev pub empty : Database
empty = record {
  events = [];
  commands = [];
  attempts = [];
  stage_results = [];
  outbox_events = [];
  lane_messages = [];
  lane_groups = [];
  lane_sequence = 0;
}
