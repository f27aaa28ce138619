-- ===== src/Tests/Workflows.antt =====
-- A deployment that is promoted, over a concrete graph.
use lineage_collection.Prelude.{
  ℕ, String, true, ◌≡◌, refl, none, some, List, [], ◌∷◌, select, select_all, update, join, decimal,
  digits,
}
use lineage_collection.Database.Transaction.{ok}
use lineage_collection.Deployment
use lineage_collection.Deployment.Tables.{
  DeploymentEvent, DeploymentPackage, DeploymentResult, EventType, Outcome, promoted, empty_tables,
}
use lineage_collection.Deployment.Completion
use lineage_collection.Deployment.Promotion
use lineage_collection.Deployment.Workflow
use lineage_collection.Deployment.Workflow.{World, Reply, replied}
use lineage_collection.Publication
use lineage_collection.Publication.Tables.{
  Edge, GraphTables, GraphVersion, VersionState, empty_graph,
}

abbrev key_text : List Edge → String
key_text [] = ""
key_text (e ∷ es) = join (e.edge_key ∷ ";" ∷ key_text es ∷ [])

abbrev edge : Edge
edge = record { edge_key = "a"; status = none; system = "orders"; version = 1; body = "" }

abbrev package_of : DeploymentPackage
package_of = record {
  package_digest = "sha256:p";
  system = "orders";
  environment = "prod";
  artifact_digest = "sha256:a";
  graph_version = "v2";
  graph_checksum = "a;";
  manifest_ref = "m";
  approval_ref = "r";
  approved = true;
}

abbrev version_in : VersionState → String → String → GraphVersion
version_in state name sum = record {
  env = "prod";
  version = name;
  state = state;
  manifest_ref = none;
  checksum = sum;
  created_at = 0;
}

abbrev graph : GraphTables
graph = record empty_graph {
  pointers = record { env = "prod"; active_version = "v1"; fencing_token = 4; updated_at = 0 } ∷ [];
  versions =
      version_in VersionState.active "v1" "" ∷ version_in VersionState.staging "v2" "a;" ∷ [];
  edges = Publication.edge_row "prod" "v2" edge ∷ [];
}

abbrev world : World
world = record { deployments = record empty_tables { packages = package_of ∷ [] }; graph = graph }

abbrev event : DeploymentEvent
event = record {
  event_id = "e-1";
  event_type = EventType.deployment;
  provider = "github";
  provider_sequence = 7;
  attempt = 1;
  system = "orders";
  environment = "prod";
  outcome = Outcome.succeeded;
  artifact_digest = some "sha256:a";
  correlation_id = "c-1";
  audit_ref = "audit-1";
  occurred_at = "2025-01-01T00:00:00Z";
}

abbrev alone : ℕ → World → World
alone _ w = w

abbrev result : DeploymentResult
result = Deployment.result_of event promoted none (some "sha256:a") (some "sha256:p") (some "v2")

promoted_world : World
promoted_world = (Workflow.handle key_text alone "audit" "t1" 9 event true world).1

handled :
    Workflow.handle key_text alone "audit" "t1" 9 event true world
    ≡ (ok (replied result), promoted_world)
unfolding promoted_world select select_all update decimal digits join Publication.reserve_tx
    Publication.reserve Publication.stage_tx Publication.stage Publication.activate_tx
    Publication.activate Publication.rollback_tx Publication.rollback Publication.promote_tx
    Publication.promote_reserved Publication.promote_existing Publication.supported_action
    Publication.insert_edges Publication.insert_audit Publication.make_active
    Publication.close_reservation Publication.insert_by Publication.move_pointer
    Publication.retire_active Publication.sort_by Publication.stored_edges
    Publication.upsert_reservation Deployment.same_package Deployment.package_for
    Deployment.check_package Deployment.package_taken Deployment.register_package
    Deployment.event_fits Deployment.insert_event Deployment.state_of Deployment.not_newer
    Deployment.new_state Deployment.taken_over Deployment.upsert_state Deployment.claim_new
    Deployment.claim_found Deployment.claim Completion.is_authoritative Completion.completed_state
    Completion.package_known Completion.completion_result Completion.record_result
    Completion.complete_owned Completion.complete_superseded Completion.stored_result
    Completion.complete_tx Completion.complete Workflow.complete_with Workflow.complete_at
    Workflow.promotion_failed Workflow.check_retained Workflow.read_back Workflow.after_promotion
    Workflow.from_prior Workflow.with_package Workflow.with_digest Workflow.perform
    Workflow.after_claim Workflow.handle Publication.pointer
handled = refl

promoted_exactly_example :
    Promotion.IsExact key_text alone "audit" "t1" 9 event
      (Promotion.lookup_world key_text alone "audit" "t1" 9 event world)
      (Promotion.lookup_world key_text alone "audit" "t1" 9 event world)
      result
promoted_exactly_example =
    Promotion.promoted_exactly key_text alone "audit" "t1" 9 event true world promoted_world result
      handled (refl, refl)
