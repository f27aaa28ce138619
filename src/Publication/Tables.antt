-- ===== src/Publication/Tables.antt =====
-- The tables that services/publisher.py and services/review.py share (db.py and migrations.py). An edge
-- is the dictionary that the code passes on: its key, its status and the text of the rest.
use lineage_collection.Prelude.{ℕ, String, Bool, Option, List, []}
use lineage_collection.Models.{OutboxEvent}
use lineage_collection.Evidence.{EvidenceStore, empty_store}

pub record Edge : Type 0 where
  pub edge_key : String
  pub status : Option String
  pub system : String
  pub version : ℕ
  pub body : String

pub record Pointer : Type 0 where
  pub env : String
  pub active_version : String
  pub fencing_token : ℕ
  pub updated_at : ℕ

pub data ReservationStatus : Type 0 where
  reserved activated : ReservationStatus

-- A row of `publish_reservations`; what `reserve` returns is this row without its status.
pub record PublishReservation : Type 0 where
  pub env : String
  pub token : ℕ
  pub expected_prior : String
  pub status : ReservationStatus
  pub reserved_at : ℕ

pub data VersionState : Type 0 where
  staging active prior discarded : VersionState

pub record GraphVersion : Type 0 where
  pub env : String
  pub version : String
  pub state : VersionState
  pub manifest_ref : Option String
  pub checksum : String
  pub created_at : ℕ

-- `payload` is none when `payload_json` does not hold an object.
pub record GraphEdge : Type 0 where
  pub env : String
  pub version : String
  pub edge_key : String
  pub payload : Option Edge

-- A row of `audit_events`, without its `payload_json`.
pub record AuditEvent : Type 0 where
  pub audit_id : String
  pub actor : String
  pub action : String
  pub resource_type : String
  pub resource_id : String
  pub correlation_id : String
  pub created_at : ℕ

pub record StagedNamespace : Type 0 where
  pub env : String
  pub namespace_version : String
  pub token : ℕ
  pub expected_prior : String
  pub manifest_ref : String
  pub edge_checksum : String
  pub edge_count : ℕ

pub data OperationStage : Type 0 where
  created reserved manifest_written namespace_created edges_writing edges_written : OperationStage
  verified activated delivery_confirmed completed : OperationStage
  failed_verify_retained failed_verify_discarded : OperationStage

pub record PublishResult : Type 0 where
  pub namespace_version : String
  pub pointer : Pointer
  pub manifest_ref : String

-- A row of `publication_operations`.
pub record Operation : Type 0 where
  pub operation_id : String
  pub proposal_digest : String
  pub approval_ref : String
  pub env : String
  pub expected_prior : String
  pub package_digest : String
  pub stage : OperationStage
  pub token : Option ℕ
  pub namespace_version : Option String
  pub manifest_ref : Option String
  pub edge_checksum : String
  pub edge_count : ℕ
  pub next_edge_index : ℕ
  pub discard : Bool
  pub result : Option PublishResult
  pub correlation_id : String
  pub created_at : ℕ

pub record GraphTables : Type 0 where
  pub pointers : List Pointer
  pub reservations : List PublishReservation
  pub versions : List GraphVersion
  pub edges : List GraphEdge
  pub operations : List Operation
  pub audits : List AuditEvent
  pub outbox_events : List OutboxEvent
  pub evidence : EvidenceStore

abbrev pub empty_graph : GraphTables
empty_graph = record {
  pointers = [];
  reservations = [];
  versions = [];
  edges = [];
  operations = [];
  audits = [];
  outbox_events = [];
  evidence = empty_store;
}
