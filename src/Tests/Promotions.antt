-- ===== src/Tests/Promotions.antt =====
-- The deployment store at concrete inputs.
use lineage_collection.Prelude.{
  ℕ, String, ◌≡◌, refl, true, Option, none, some, List, [], ◌∷◌, select, update,
}
use lineage_collection.Database.Transaction.{ok}
use lineage_collection.Deployment.Tables.{
  deployment, succeeded, DeploymentEvent, DeploymentPackage, Status, promoted, DeploymentState,
  DeploymentResult, DeploymentTables, duplicate_of, empty_tables,
}
use lineage_collection.Deployment
use lineage_collection.Deployment.{package_for, state_of, claim, result_of, new_state}
use lineage_collection.Deployment.Completion
use lineage_collection.Deployment.Completion.{complete, completed_state, stored_result}
use lineage_collection.Deployment.Effects.{Call, registers, claims, completes, step, run, Follows}
use lineage_collection.Deployment.Order.{state-Follows}
use lineage_collection.Deployment.Replies.{event_answered_once, package_immutable}

abbrev bound : DeploymentPackage
bound = record {
  package_digest = "sha256:p";
  system = "orders";
  environment = "prod";
  artifact_digest = "sha256:a";
  graph_version = "g-2";
  graph_checksum = "sha256:g";
  manifest_ref = "s3://manifest";
  approval_ref = "approval-1";
  approved = true;
}

abbrev event : String → ℕ → DeploymentEvent
event id sequence = record {
  event_id = id;
  event_type = deployment;
  provider = "github";
  provider_sequence = sequence;
  attempt = 1;
  system = "orders";
  environment = "prod";
  outcome = succeeded;
  artifact_digest = some "sha256:a";
  correlation_id = "c-1";
  audit_ref = "audit-1";
  occurred_at = "2025-01-01T00:00:00Z";
}

abbrev deployed : DeploymentTables
deployed = run empty_tables (
    registers bound
    ∷ claims (event "e-1" 7) "t1"
    ∷ completes (event "e-1" 7) promoted none (some bound) (some "g-2") "t2"
    ∷ [])

abbrev deployed_state : DeploymentState
deployed_state =
    completed_state (event "e-1" 7) promoted (some bound) (some "g-2") "t2"
      (new_state (event "e-1" 7) "t1")

abbrev deployed_result : DeploymentResult
deployed_result =
    result_of (event "e-1" 7) promoted none (some "sha256:a") (some "sha256:p") (some "g-2")

deployed_lem :
    (package_for "orders" "prod" "sha256:a" deployed ≡ some bound)
    × (state_of "orders" "prod" deployed ≡ some deployed_state)
    × (stored_result (event "e-1" 7) deployed ≡ some deployed_result)
unfolding select update Deployment.same_package Deployment.package_for Deployment.check_package
    Deployment.package_taken Deployment.register_package Deployment.event_fits
    Deployment.insert_event Deployment.state_of Deployment.not_newer Deployment.new_state
    Deployment.taken_over Deployment.upsert_state Deployment.claim_new Deployment.claim_found
    Deployment.claim Completion.is_authoritative Completion.completed_state Completion.package_known
    Completion.completion_result Completion.record_result Completion.complete_owned
    Completion.complete_superseded Completion.stored_result Completion.complete_tx
    Completion.complete step run
deployed_lem = (refl, refl, refl)

abbrev later : List Call
later = claims (event "e-0" 6) "t3" ∷ claims (event "e-2" 8) "t4" ∷ []

state-Follows_example :
    (s : DeploymentState) × (state_of "orders" "prod" (run deployed later) ≡ some s)
    × Follows deployed_state s
state-Follows_example = state-Follows "orders" "prod" deployed_state deployed later deployed_lem.1

event_answered_once_example :
    ((now : String)
      → claim (event "e-1" 9) now (run deployed later)
        ≡ (duplicate_of (record deployed_result { duplicate = true }), run deployed later))
    × ((status : Status) (reason : Option String) (p : Option DeploymentPackage)
          (graph_version : Option String) (now : String)
        → complete (event "e-1" 9) status reason p graph_version now (run deployed later)
          ≡ (ok (record deployed_result { duplicate = true }), run deployed later))
event_answered_once_example =
    event_answered_once (event "e-1" 7) (event "e-1" 9) deployed_result deployed later
      deployed_lem.2 refl

package_immutable_example : package_for "orders" "prod" "sha256:a" (run deployed later) ≡ some bound
package_immutable_example =
    package_immutable "orders" "prod" "sha256:a" bound deployed later deployed_lem.0
