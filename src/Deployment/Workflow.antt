-- ===== src/Deployment/Workflow.antt =====
-- `DeploymentWorkflow.handle` of application/workflows/deployment.py, over SQLiteDeploymentStore and
-- PublisherService. Between two of its calls, and between the two transactions of `promote_existing`, other
-- workers may do anything to the tables: `meanwhile` says what, by the number of the pause. What the authenticator says of the signature is the parameter
-- `is_authentic`.
use lineage_collection.Prelude.{
  ℕ, String, Bool, false, not, ◌&&◌, ◌||◌, Option, none, some, List, ◌==◌, eqb, same_option,
  if◌then◌else◌,
}
use lineage_collection.Database.Transaction.{
  Result, ok, err, Error, pointer_conflict, fence_lost, verify_mismatch, readback_mismatch,
}
use lineage_collection.Deployment
use lineage_collection.Deployment.{is_merge, package_for, state_of}
use lineage_collection.Deployment.Tables.{
  EventType, Outcome, DeploymentEvent, DeploymentPackage, DeploymentState, DeploymentResult,
  DeploymentClaim, DeploymentTables, Status, promoted, rolled_back, lineage_out_of_sync,
  failed_terminal, failed_no_change,
}
use lineage_collection.Deployment.Completion
use lineage_collection.Publication
use lineage_collection.Publication.Tables.{Edge, Pointer, GraphTables}

pub record World : Type 0 where
  pub deployments : DeploymentTables
  pub graph : GraphTables

-- The dictionary that `handle` returns: that of `_unchanged`, or a result of the store.
pub data Reply : Type 0 where
  unchanged : String → String → Reply
  replied : DeploymentResult → Reply

-- The code of the DomainErrors that the publisher raises; any other exception is not caught.
abbrev pub error_code : Error → Option String
error_code pointer_conflict = some "POINTER_CONFLICT"
error_code fence_lost = some "FENCE_LOST"
error_code verify_mismatch = some "VERIFY_MISMATCH"
error_code _ = none

abbrev pub action_of : EventType → String
action_of EventType.rollback = "DEPLOYMENT_ROLLBACK"
action_of _ = "DEPLOYMENT_PROMOTE"

abbrev pub terminal_of : EventType → Status
terminal_of EventType.rollback = rolled_back
terminal_of _ = promoted

abbrev pub reply_of : Result DeploymentResult → Result Reply
reply_of (ok r) = ok (replied r)
reply_of (err e) = err e

module _ (checksum : List Edge → String) (meanwhile : ℕ → World → World) (audit_id clock : String)
    (now : ℕ) (e : DeploymentEvent) where
  unfoldable pub complete_with :
      Status
      → Option String
      → Option DeploymentPackage
      → Option String
      → World
      → Result Reply × World
  complete_with status reason pkg graph_version w =
      let (r, d) = Completion.complete e status reason pkg graph_version clock w.deployments in
      (reply_of r, record w { deployments = d })

  -- A pointer that is missing raises.
  unfoldable pub complete_at :
      Status → Option String → Result Pointer → World → Result Reply × World
  complete_at status reason (err x) w = (err x, w)
  complete_at status reason (ok p) w = complete_with status reason none (some p.active_version) w

  -- Another event has taken the environment over in the meantime.
  abbrev pub superseded_by : Option DeploymentState → Bool
  superseded_by none = false
  superseded_by (some s) = not (s.event_id == e.event_id)

  unfoldable pub promotion_failed : String → World → Result Reply × World
  promotion_failed code w =
      let w' : World = meanwhile 5 w in
      if superseded_by (state_of e.system e.environment w.deployments)
      then complete_at failed_no_change (some "SUPERSEDED")
          (Publication.pointer e.environment w'.graph) (meanwhile 6 w')
      else complete_at failed_terminal (some code) (Publication.pointer e.environment w'.graph)
          (meanwhile 6 w')

  -- The state that the environment has kept, unless another event owns it.
  abbrev pub retained : String → DeploymentPackage → Option DeploymentState → Bool
  retained digest p none = false
  retained digest p (some s) =
      not (s.event_id == e.event_id)
      || (same_option s.deployed_artifact_digest (some digest)
          && (same_option s.lineage_package_digest (some p.package_digest)
              && (same_option s.graph_version (some p.graph_version)
                  && s.correlation_id == e.correlation_id)))

  unfoldable pub check_retained :
      String → DeploymentPackage → Result Reply × World → Result Reply × World
  check_retained digest p (err x, w) = (err x, w)
  check_retained digest p (ok r, w) =
      let w' : World = meanwhile 8 w in
      (
        if retained digest p (state_of e.system e.environment w'.deployments)
            then ok r
            else err readback_mismatch,
        w',
      )

  -- The pointer that is read back is the one that the promotion returned, at the package's version.
  abbrev pub reads_back : DeploymentPackage → Pointer → Pointer → Bool
  reads_back p q read =
      q.active_version == p.graph_version
      && (read.active_version == p.graph_version && eqb read.fencing_token q.fencing_token)

  unfoldable pub read_back :
      String → DeploymentPackage → Pointer → Result Pointer → World → Result Reply × World
  read_back digest p q (err x) w = (err x, w)
  read_back digest p q (ok read) w =
      if reads_back p q read
      then check_retained digest p (
          complete_with (terminal_of e.event_type) none (some p) (some p.graph_version)
            (meanwhile 7 w))
      else complete_with failed_terminal (some "READ_AFTER_WRITE_MISMATCH") none
          (some read.active_version) (meanwhile 7 w)

  unfoldable pub after_promotion :
      String → DeploymentPackage → Result Pointer → World → Result Reply × World
  after_promotion digest p (ok q) w =
      read_back digest p q (Publication.pointer e.environment w.graph) w
  after_promotion digest p (err x) w = elim (error_code x) [
    | none ↦ (err x, w)
    | some code ↦ promotion_failed code w
  ]

  -- What others do to the graph between the reservation and the promotion.
  abbrev pub between : World → GraphTables → GraphTables
  between w g = (meanwhile 9 (record w { graph = g })).graph

  -- `promote_existing`, from the pointer that was read before it
  abbrev pub promote : DeploymentPackage → Pointer → World → Result Pointer × GraphTables
  promote p prior w =
      Publication.promote_existing checksum (between w) e.environment p.graph_version
        prior.active_version p.graph_checksum e.provider e.correlation_id (action_of e.event_type)
        audit_id now now w.graph

  unfoldable pub from_prior :
      String → DeploymentPackage → Result Pointer → World → Result Reply × World
  from_prior digest p (err x) w = (err x, w)
  from_prior digest p (ok prior) w =
      let (q, g) = promote p prior w in
      after_promotion digest p q (meanwhile 4 (record w { graph = g }))

  unfoldable pub with_package : String → Option DeploymentPackage → World → Result Reply × World
  with_package digest none w =
      complete_at lineage_out_of_sync (some "EXACT_PACKAGE_NOT_FOUND")
        (Publication.pointer e.environment w.graph) (meanwhile 2 w)
  with_package digest (some p) w =
      from_prior digest p (Publication.pointer e.environment w.graph) (meanwhile 3 w)

  unfoldable pub with_digest : Option String → World → Result Reply × World
  with_digest none w = complete_with failed_terminal (some "MISSING_ARTIFACT_DIGEST") none none w
  with_digest (some digest) w =
      with_package digest (package_for e.system e.environment digest w.deployments) (meanwhile 1 w)

  unfoldable pub perform : Outcome → World → Result Reply × World
  perform Outcome.failed w = complete_with failed_no_change (some "DEPLOYMENT_FAILED") none none w
  perform Outcome.succeeded w = with_digest e.artifact_digest w

  unfoldable pub after_claim : DeploymentClaim → World → Result Reply × World
  after_claim (DeploymentClaim.duplicate_of r) w = (ok (replied r), w)
  after_claim (DeploymentClaim.stale_by r) w = (ok (replied r), w)
  after_claim DeploymentClaim.claimed w = perform e.outcome (meanwhile 0 w)
  after_claim DeploymentClaim.resume w = perform e.outcome (meanwhile 0 w)

  unfoldable pub handle : Bool → World → Result Reply × World
  handle is_authentic w =
      if not is_authentic
      then (ok (unchanged e.event_id "AUTHENTICATION_FAILED"), w)
      else if is_merge e.event_type
      then (ok (unchanged e.event_id "NON_DEPLOYMENT_EVENT"), w)
      else (let (c, d) = Deployment.claim e clock w.deployments in
          after_claim c (record w { deployments = d }))
