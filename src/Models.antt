-- ===== src/Models.antt =====
-- The contracts of application/models.py that the durable stores exchange. A timestamp is an
-- instant (module Clock), a text is a `String`.
use lineage_collection.Prelude.{ℕ, String, Bool, Option, eqb, leb}

pub data WorkflowKind : Type 0 where
  baseline incremental pr_gate deployment nightly : WorkflowKind

abbrev kind_code : WorkflowKind → ℕ
kind_code baseline = 0
kind_code incremental = 1
kind_code pr_gate = 2
kind_code deployment = 3
kind_code nightly = 4

abbrev pub same_kind : WorkflowKind → WorkflowKind → Bool
same_kind a b = eqb (kind_code a) (kind_code b)

pub data CommandStatus : Type 0 where
  queued running retry_wait completed failed_redrivable failed_terminal : CommandStatus

abbrev status_code : CommandStatus → ℕ
status_code queued = 0
status_code running = 1
status_code retry_wait = 2
status_code completed = 3
status_code failed_redrivable = 4
status_code failed_terminal = 5

abbrev pub same_status : CommandStatus → CommandStatus → Bool
same_status a b = eqb (status_code a) (status_code b)

pub record StageIdentity : Type 0 where
  pub workflow_kind : WorkflowKind
  pub scope : String
  pub artifact_digest : String
  pub stage_name : String
  pub determinant_digest : String
  pub schema_version : String

-- `__post_init__` wants an epoch of at least 1: `lease_valid`.
pub record Lease : Type 0 where
  pub command_id : String
  pub owner : String
  pub epoch : ℕ
  pub expires_at : ℕ

abbrev pub lease_valid : Lease → Bool
lease_valid l = leb 1 l.epoch

unfoldable pub is_expired : Lease → ℕ → Bool
is_expired l now = leb l.expires_at now

pub record Command : Type 0 where
  pub command_id : String
  pub idempotency_key : String
  pub workflow_kind : WorkflowKind
  pub workflow_version : String
  pub scope : String
  pub artifact_digest : String
  pub determinant_digest : String
  pub status : CommandStatus
  pub attempt : ℕ
  pub max_attempts : ℕ
  pub input_ref : String
  pub correlation_id : String
  pub created_at : ℕ
  pub deadline_at : ℕ
  pub causation_id : Option String
  pub output_ref : Option String

pub record StageResult : Type 0 where
  pub identity : StageIdentity
  pub command_id : String
  pub output_ref : String
  pub output_checksum : String
  pub lease_epoch : ℕ
  pub completed_at : ℕ

-- `other` is any text but the two that the outbox writes.
pub data OutboxStatus : Type 0 where
  pending delivered other : OutboxStatus

pub record OutboxEvent : Type 0 where
  pub outbox_id : String
  pub topic : String
  pub partition_key : String
  pub payload_ref : String
  pub status : OutboxStatus
  pub attempts : ℕ
  pub available_at : ℕ
  pub correlation_id : String
  pub created_at : ℕ
  pub delivered_at : Option ℕ

pub record DurableAcceptance : Type 0 where
  pub created : Bool
  pub envelope_json : String
  pub command : Command
  pub outbox : OutboxEvent

pub record LaneMessage : Type 0 where
  pub message_id : String
  pub lane : String
  pub group_key : String
  pub payload_ref : String
  pub correlation_id : String
  pub attempt : ℕ
  pub max_attempts : ℕ
  pub delivery_epoch : ℕ
  pub owner : String
  pub lease_expires_at : ℕ
  pub supersession_key : Option String
