-- ===== src/Deployment/Tables.antt =====
-- The contracts of application/workflows/deployment.py and the three tables of a deployment in
-- migrations.py. A timestamp is the text that the caller's clock gives. `result_json` holds the result
-- itself, since `json.loads` reads back what `json.dumps` wrote.
use lineage_collection.Prelude.{ℕ, String, Bool, Option, List, []}

pub data EventType : Type 0 where
  deployment rollback merge : EventType

pub data Outcome : Type 0 where
  succeeded failed : Outcome

pub record DeploymentEvent : Type 0 where
  pub event_id : String
  pub event_type : EventType
  pub provider : String
  pub provider_sequence : ℕ
  pub attempt : ℕ
  pub system : String
  pub environment : String
  pub outcome : Outcome
  pub artifact_digest : Option String
  pub correlation_id : String
  pub audit_ref : String
  pub occurred_at : String

pub record DeploymentPackage : Type 0 where
  pub package_digest : String
  pub system : String
  pub environment : String
  pub artifact_digest : String
  pub graph_version : String
  pub graph_checksum : String
  pub manifest_ref : String
  pub approval_ref : String
  pub approved : Bool

-- The texts of `state` and `status` that the code writes.
pub data Status : Type 0 where
  processing stale promoted rolled_back lineage_out_of_sync failed_terminal failed_no_change :
      Status

-- A row of `deployment_state`.
pub record DeploymentState : Type 0 where
  pub system : String
  pub environment : String
  pub provider : String
  pub provider_sequence : ℕ
  pub attempt : ℕ
  pub event_id : String
  pub deployed_artifact_digest : Option String
  pub lineage_package_digest : Option String
  pub graph_version : Option String
  pub state : Status
  pub audit_ref : String
  pub correlation_id : String
  pub updated_at : String

-- `_result`
pub record DeploymentResult : Type 0 where
  pub event_id : String
  pub system : String
  pub environment : String
  pub provider_sequence : ℕ
  pub attempt : ℕ
  pub state : Status
  pub reason : Option String
  pub deployed_artifact_digest : Option String
  pub lineage_package_digest : Option String
  pub graph_version : Option String
  pub audit_ref : String
  pub correlation_id : String
  pub duplicate : Bool

-- A row of `deployment_events`.
pub record EventRow : Type 0 where
  pub event : DeploymentEvent
  pub status : Status
  pub result : Option DeploymentResult
  pub created_at : String
  pub updated_at : String

pub data DeploymentClaim : Type 0 where
  claimed resume : DeploymentClaim
  duplicate_of stale_by : DeploymentResult → DeploymentClaim

pub record DeploymentTables : Type 0 where
  pub packages : List DeploymentPackage
  pub events : List EventRow
  pub states : List DeploymentState

abbrev pub empty_tables : DeploymentTables
empty_tables = record { packages = []; events = []; states = [] }
