-- ===== src/Publication/Publish.antt =====
-- The later stages of an operation, and `publish` itself (services/publisher.py). `fault` says at which
-- boundaries the installed hook raises; the digests and the canonical text of a reference are parameters.
use lineage_collection.Prelude.{
  ℕ, String, Bool, true, false, not, ◌&&◌, ◌||◌, Option, none, some, List, [], ◌∷◌, ◌++◌, ◌==◌, suc,
  any, length, join, select, update, if◌then◌else◌,
}
use lineage_collection.Models.{OutboxEvent, OutboxStatus}
use lineage_collection.Database.Transaction.{
  Result, ok, err, Tx, pointer_conflict, fence_lost, verify_mismatch, approval_required, fault,
  runtime_error, ◌>>=◌, ◌>>◌, guard, modify, gets, transaction,
}
use lineage_collection.Evidence.{KeyPaths, EvidenceRef, put}
use lineage_collection.Publication.Tables.{
  Edge, VersionState, AuditEvent, OperationStage, PublishResult, Operation, GraphTables,
}
use lineage_collection.Publication.{
  pointer_of, reservation_of, version_at, points_at, owns_fence, stored_edges, matches,
  retire_active, move_pointer, close_reservation, new_pointer, new_audit, sort_by,
}
use lineage_collection.Publication.Operations.{
  Proposal, Approval, approval_matches, projected_edges, operation_of, at_stage, load_operation,
  advance, to_stage, ensure_operation, reserve_operation, create_namespace, write_edges, is_writing,
  name_of, token_of, manifest_of,
}

pub data Boundary : Type 0 where
  reservation_acquired manifest_written namespace_created verified pointer_activated
        outbox_delivered :
      Boundary
  edge_batch_written : ℕ → Boundary

-- A call that commits piece by piece: what ran before an exception stays.
abbrev pub Run : Type 0 → Type 0
Run A = GraphTables → Result A × GraphTables

module _ {A B : Type 0} where
  abbrev pub go_on : Result A → (A → Run B) → Run B
  go_on (ok a) f t = f a t
  go_on (err e) f t = (err e, t)

  abbrev pub then_go : Run A → (A → Run B) → Run B
  then_go m f t = go_on (m t).0 f (m t).1

-- `_mark_verification_failure`
abbrev pub is_staging : VersionState → Bool
is_staging VersionState.staging = true
is_staging _ = false

unfoldable pub mark_failure : Operation → GraphTables → GraphTables
mark_failure o t = record t {
  versions =
      if o.discard
      then update (λ g. version_at o.env (name_of o) g && is_staging g.state)
          (λ g. record g { state = VersionState.discarded }) t.versions
      else t.versions;
  operations =
      update (operation_of o.operation_id)
        (to_stage (
          if o.discard
          then OperationStage.failed_verify_discarded
          else OperationStage.failed_verify_retained))
        t.operations;
}

-- The `result_payload` of `_activate_operation`. Token, namespace and manifest are set at this stage.
abbrev pub operation_result : Operation → ℕ → PublishResult
operation_result o now = record {
  namespace_version = name_of o;
  pointer = new_pointer o.env (name_of o) (token_of o) now;
  manifest_ref = manifest_of o;
}

unfoldable pub make_staged_active : String → String → GraphTables → GraphTables
make_staged_active env version t = record t {
  versions =
      update (λ g. version_at env version g && is_staging g.state)
        (λ g. record g { state = VersionState.active }) t.versions;
}

-- INSERT OR IGNORE
unfoldable pub ignore_audit : AuditEvent → GraphTables → GraphTables
ignore_audit a t =
    if any (λ (b : AuditEvent). b.audit_id == a.audit_id) t.audits
    then t
    else record t { audits = t.audits ++ a ∷ [] }

unfoldable pub ignore_outbox : OutboxEvent → GraphTables → GraphTables
ignore_outbox e t =
    if any (λ (x : OutboxEvent). x.outbox_id == e.outbox_id) t.outbox_events
    then t
    else record t { outbox_events = t.outbox_events ++ e ∷ [] }

abbrev pub outbox_id_of : Operation → String
outbox_id_of o = join ("outbox-" ∷ o.operation_id ∷ [])

abbrev pub activation_event : Operation → ℕ → OutboxEvent
activation_event o now = record {
  outbox_id = outbox_id_of o;
  topic = "PUBLICATION_ACTIVATED";
  partition_key = o.env;
  payload_ref = join ("publication://" ∷ o.operation_id ∷ []);
  status = OutboxStatus.pending;
  attempts = 0;
  available_at = now;
  correlation_id = o.correlation_id;
  created_at = now;
  delivered_at = none;
}

unfoldable pub activation : Operation → Approval → ℕ → Tx GraphTables (Unit {0})
activation o approval now = do
  reservation ← gets (λ t. select (reservation_of o.env) t.reservations)
  guard (owns_fence (token_of o) reservation) fence_lost
  row ← gets (λ t. select (pointer_of o.env) t.pointers)
  guard (points_at o.expected_prior row) pointer_conflict
  modify (retire_active o.env)
  modify (make_staged_active o.env (name_of o))
  modify (move_pointer o.env (name_of o) (token_of o) now)
  modify (close_reservation o.env)
  modify (
      ignore_audit (
        new_audit (join ("audit-" ∷ o.operation_id ∷ [])) approval.actor "PROJECTION_ACTIVATED"
          o.env (name_of o) o.correlation_id now))
  modify (ignore_outbox (activation_event o now))
  modify (
      advance o.operation_id OperationStage.verified (λ x. record x {
        stage = OperationStage.activated;
        result = some (operation_result o now);
      }))

abbrev pub activate_found : Operation → Approval → ℕ → Option Operation → Tx GraphTables (Unit {0})
activate_found o approval now none t = err runtime_error
activate_found o approval now (some current) t =
    if at_stage OperationStage.verified current then activation o approval now t else ok (tt, t)

-- `_activate_operation`
unfoldable pub activate_operation_tx : Operation → Approval → ℕ → Tx GraphTables (Unit {0})
activate_operation_tx o approval now t =
    activate_found o approval now (select (operation_of o.operation_id) t.operations) t

-- `_deliver_operation_outbox`
abbrev pub is_delivered : OutboxStatus → Bool
is_delivered OutboxStatus.delivered = true
is_delivered _ = false

unfoldable pub deliver_event : String → ℕ → GraphTables → GraphTables
deliver_event id now t = record t {
  outbox_events =
      update (λ (e : OutboxEvent). e.outbox_id == id && not (is_delivered e.status))
        (λ e. record e {
          status = OutboxStatus.delivered;
          attempts = Prim.Native.Nat.suc e.attempts;
          delivered_at = some now;
        })
        t.outbox_events;
}

unfoldable pub deliver_tx : Operation → ℕ → Tx GraphTables (Unit {0})
deliver_tx o now = do
  sent ← gets (λ t. any (λ (e : OutboxEvent). e.outbox_id == outbox_id_of o) t.outbox_events)
  guard sent runtime_error
  modify (deliver_event (outbox_id_of o) now)
  modify
      (advance o.operation_id OperationStage.activated (to_stage OperationStage.delivery_confirmed))

-- `_result_from_operation`
unfoldable pub result_from : Operation → Result PublishResult
result_from o = elim o.result [
  | none ↦ err runtime_error
  | some r ↦ if at_stage OperationStage.completed o then ok r else err runtime_error
]

abbrev pub has_failed : Operation → Bool
has_failed o =
    at_stage OperationStage.failed_verify_retained o
    || at_stage OperationStage.failed_verify_discarded o

-- One `if operation["stage"] == ...` of `publish`, which reloads the operation at its end.
unfoldable pub phase :
    String → (Operation → Bool) → (Operation → Run (Unit {0})) → Operation → Run Operation
phase id test act o t =
    if test o then then_go (act o) (λ _ s. (load_operation id s, s)) t else (ok o, t)

unfoldable pub complete_operation : Operation → Run (Unit {0})
complete_operation o t = (
  ok tt,
  advance o.operation_id OperationStage.delivery_confirmed (to_stage OperationStage.completed) t,
)

unfoldable pub run_phases : List (Operation → Run Operation) → Operation → Run Operation
run_phases [] o t = (ok o, t)
run_phases (p ∷ ps) o t = then_go (p o) (run_phases ps) t

module _ (checksum : List Edge → String) (paths : KeyPaths) (reference_text : EvidenceRef → String)
    (manifest_digest : Operation → String) (batch_size : ℕ) (fault_at : Boundary → Bool) where
  -- `_verify_operation`
  unfoldable pub verify_operation : Operation → Run (Unit {0})
  verify_operation o t =
      if matches checksum o.edge_count o.edge_checksum (stored_edges o.env (name_of o) t)
      then (
        ok tt,
        advance o.operation_id OperationStage.edges_written (to_stage OperationStage.verified) t,
      )
      else (err verify_mismatch, mark_failure o t)

  abbrev pub manifest_reference : Operation → EvidenceRef
  manifest_reference o = record {
    kind = "manifest";
    key = join (o.env ∷ "/" ∷ name_of o ∷ []);
    checksum = manifest_digest o;
    schema_version = "1.0.0";
  }

  unfoldable pub record_manifest : Operation → EvidenceRef → Run (Unit {0})
  record_manifest o r t = (
    ok tt,
    advance o.operation_id OperationStage.reserved
        (λ x. record x {
          manifest_ref = some (reference_text r);
          stage = OperationStage.manifest_written;
        })
        t,
  )

  -- `_write_operation_manifest`
  unfoldable pub write_manifest : Operation → Run (Unit {0})
  write_manifest o t =
      let (stored, evidence) = put paths (manifest_reference o) t.evidence in
      go_on stored (record_manifest o) (record t { evidence = evidence })

  -- `_after_boundary`
  abbrev pub after_boundary : Boundary → Run (Unit {0})
  after_boundary b t = (if fault_at b then err fault else ok tt, t)

  abbrev pub bounded : (Operation → Run (Unit {0})) → Boundary → Operation → Run (Unit {0})
  bounded act b o = then_go (act o) (λ _. after_boundary b)

  -- The stages of `publish`, in their order; `now` is the reading of the clock.
  unfoldable pub phases : Approval → List Edge → ℕ → String → List (Operation → Run Operation)
  phases approval edges now id =
      phase id (at_stage OperationStage.created)
        (bounded (λ _. reserve_operation id now) reservation_acquired)
      ∷ phase id (at_stage OperationStage.reserved) (bounded write_manifest manifest_written)
      ∷ phase id (at_stage OperationStage.manifest_written)
          (bounded (λ o. create_namespace o now) namespace_created)
      ∷ phase id is_writing (λ _.
        write_edges batch_size (λ n. fault_at (edge_batch_written n)) (suc (length edges)) id
          (sort_by (λ (e : Edge). e.edge_key) edges))
      ∷ phase id (at_stage OperationStage.edges_written) (bounded verify_operation verified)
      ∷ phase id (at_stage OperationStage.verified)
          (bounded (λ o. transaction (activate_operation_tx o approval now)) pointer_activated)
      ∷ phase id (at_stage OperationStage.activated)
          (bounded (λ o. transaction (deliver_tx o now)) outbox_delivered)
      ∷ phase id (at_stage OperationStage.delivery_confirmed) complete_operation
      ∷ []

  -- `publish` after `_ensure_operation`
  unfoldable pub resume : Approval → List Edge → ℕ → Operation → Run PublishResult
  resume approval edges now o t =
      if at_stage OperationStage.completed o
      then (result_from o, t)
      else if has_failed o
      then (err verify_mismatch, t)
      else then_go (run_phases (phases approval edges now o.operation_id) o)
          (λ last s. (result_from last, s)) t

  -- `publish` from `_ensure_operation` on: `operation` is the row that it inserts, `edges` the projected edges.
  unfoldable pub publish_operation : Operation → Approval → List Edge → ℕ → Run PublishResult
  publish_operation operation approval edges now =
      then_go (ensure_operation operation) (resume approval edges now)

  -- `publish`. The digests that name the operation and its package are parameters; `discard` is the
  -- policy for a projection that fails its verification.
  module _ (operation_id : String → String → ℕ → String → String)
      (package_digest : String → String → String → String) (discard : Bool) where
    unfoldable pub new_operation : String → Proposal → Approval → List Edge → ℕ → Operation
    new_operation env p a edges now = record {
      operation_id = operation_id env p.proposal_id p.version a.approval_id;
      proposal_digest = p.proposal_digest;
      approval_ref = a.approval_ref;
      env = env;
      expected_prior = p.expected_base_version;
      package_digest = package_digest p.proposal_digest a.approval_checksum (checksum edges);
      stage = OperationStage.created;
      token = none;
      namespace_version = none;
      manifest_ref = none;
      edge_checksum = checksum edges;
      edge_count = length edges;
      next_edge_index = 0;
      discard = discard;
      result = none;
      correlation_id = p.correlation_id;
      created_at = now;
    }

    unfoldable pub publish : Proposal → Approval → String → ℕ → Run PublishResult
    publish p a env now t =
        if approval_matches p a
        then elim (projected_edges env p t) [
          | err e ↦ (err e, t)
          | ok edges ↦ publish_operation (new_operation env p a edges now) a edges now t
        ]
        else (err approval_required, t)
