-- ===== src/Publication/Resumption.antt =====
-- The writes of `publish` (services/publisher.py) from its verification on, and of the whole of it,
-- wherever it is interrupted.
use lineage_collection.Prelude.{
  ℕ, String, Bool, ◌≡◌, refl, inl, inr, Option, none, some, List, [], ◌∷◌, select, arith, join,
  ◌&&◌, Bool-cases,
}
use lineage_collection.Database.Transaction.{Result, ok, err, transaction, Result-cases}
use lineage_collection.Evidence.{KeyPaths, EvidenceRef, EvidenceStore, put}
use lineage_collection.Models.{OutboxEvent}
use lineage_collection.Publication.Tables.{Edge, OperationStage, Operation, AuditEvent, GraphTables}
use lineage_collection.Publication.{
  version_at, matches, stored_edges, retire_active, move_pointer, close_reservation, new_audit,
}
use lineage_collection.Publication.Operations.{
  Proposal, Approval, approval_matches, projected_edges, operation_of, at_stage, advance,
  ensure_operation, name_of, token_of,
}
use lineage_collection.Publication.Publish.{
  Run, go_on, mark_failure, make_staged_active, ignore_audit, ignore_outbox, activation,
  activation_event, is_staging, activate_found, Boundary, manifest_reference, activate_operation_tx,
  deliver_tx, deliver_event, verify_operation, write_manifest, record_manifest, bounded,
  complete_operation, run_phases, phases, resume, result_from, has_failed, new_operation,
  publish_operation, publish,
}
use lineage_collection.Publication.Writes.{
  Write, keeps, moves, discards, Writes, done, one, Writes-trans, unchanged,
}
use lineage_collection.Publication.Effects.{committed-Writes}
use lineage_collection.Publication.Parts.{
  Safe, AllSafe, then_go-Safe, phase-Safe, run_phases-Safe, ensure_operation-Safe,
  reserve_operation-Safe, create_namespace-Safe, write_edges-Safe,
}

ignore_audit-same :
    (a : AuditEvent) (t : GraphTables)
    → ((ignore_audit a t).pointers ≡ t.pointers)
      × ((ignore_audit a t).reservations ≡ t.reservations)
      × ((ignore_audit a t).versions ≡ t.versions)
      × ((ignore_audit a t).operations ≡ t.operations)
unfolding ignore_audit
ignore_audit-same a t = ground arith

ignore_outbox-same :
    (e : OutboxEvent) (t : GraphTables)
    → ((ignore_outbox e t).pointers ≡ t.pointers)
      × ((ignore_outbox e t).reservations ≡ t.reservations)
      × ((ignore_outbox e t).versions ≡ t.versions)
      × ((ignore_outbox e t).operations ≡ t.operations)
unfolding ignore_outbox
ignore_outbox-same e t = ground arith

-- The statements of an activation, in their order; the audit and the outbox leave the graph alone.
activation-Write :
    {free : Bool} (o : Operation) (approval : Approval) (now : ℕ) (t t' : GraphTables)
    (a : Unit {0})
    → activation o approval now t ≡ ok (a, t')
    → Write free t t'
unfolding activation retire_active make_staged_active move_pointer close_reservation advance
activation-Write o approval now t t' a e =
    let moved : GraphTables = close_reservation o.env (
      move_pointer o.env (name_of o) (token_of o) now
        (make_staged_active o.env (name_of o) (retire_active o.env t))) in
    let audit : AuditEvent =
      new_audit (join ("audit-" ∷ o.operation_id ∷ [])) approval.actor "PROJECTION_ACTIVATED" o.env
        (name_of o) o.correlation_id now in
    let a_same = ignore_audit-same audit moved in
    let o_same = ignore_outbox-same (activation_event o now) (ignore_audit audit moved) in
    moves o.env o.env (name_of o) (token_of o) now
      (λ g. version_at o.env (name_of o) g && is_staging g.state) (inr refl) (λ g h. ground arith)
      (ground arith) (ground (arith, a_same, o_same)) (ground (arith, a_same, o_same))
      (ground (arith, a_same, o_same))

activate_found-Writes :
    {free : Bool} (o : Operation) (approval : Approval) (now : ℕ) (row : Option Operation)
    (t t' : GraphTables) (a : Unit {0})
    → activate_found o approval now row t ≡ ok (a, t')
    → Writes free t t'
activate_found-Writes o approval now none t t' a e = absurd (ground arith)
activate_found-Writes o approval now (some current) t t' a e =
    elim (Bool-cases (at_stage OperationStage.verified current)) [
      | inl due ↦ one (activation-Write o approval now t t' a (ground (arith, e)))
      | inr past ↦ unchanged (ground arith)
    ]

activate_operation-Safe :
    {free : Bool} (o : Operation) (approval : Approval) (now : ℕ)
    → Safe free (transaction (activate_operation_tx o approval now))
unfolding activate_operation_tx
activate_operation-Safe o approval now t =
    committed-Writes (activate_operation_tx o approval now) t λ a t' e.
      activate_found-Writes o approval now (select (operation_of o.operation_id) t.operations) t t'
        a e

deliver-Safe : {free : Bool} (o : Operation) (now : ℕ) → Safe free (transaction (deliver_tx o now))
deliver-Safe o now t = committed-Writes (deliver_tx o now) t λ a t' e.
    unfold deliver_tx deliver_event advance in
    one (keeps (ground arith) (ground arith) (ground arith))

complete-Safe : {free : Bool} (o : Operation) → Safe free (complete_operation o)
unfolding complete_operation advance
complete-Safe o t = one (keeps refl refl refl)

mark_failure-Write :
    {free : Bool} (o : Operation) (t : GraphTables) → Writes free t (mark_failure o t)
unfolding mark_failure
mark_failure-Write o t = elim (Bool-cases o.discard) [
  | inl drops ↦ one (
      discards (λ g. version_at o.env (name_of o) g && is_staging g.state) refl refl
        (rw drops refl))
  | inr retains ↦ one (keeps refl refl (rw retains refl))
]

module _ (checksum : List Edge → String) (paths : KeyPaths) (reference_text : EvidenceRef → String)
    (manifest_digest : Operation → String) (batch_size : ℕ) (fault_at : Boundary → Bool) where
  verify-Safe :
      {free : Bool} (o : Operation)
      → Safe free
          (verify_operation checksum paths reference_text manifest_digest batch_size fault_at o)
  unfolding verify_operation advance
  verify-Safe o t =
      elim (Bool-cases
        (matches checksum o.edge_count o.edge_checksum (stored_edges o.env (name_of o) t))) [
          | inl good ↦ rw good (one (keeps refl refl refl))
          | inr bad ↦ rw bad (mark_failure-Write o t)
        ]

  go_on-Safe :
      {free : Bool} {A B : Type 0} (x : Result A) (f : A → Run B) (t u : GraphTables)
      → Writes free t u
      → ((a : A) → Safe free (f a))
      → Writes free t (go_on x f u).1
  go_on-Safe (ok a) f t u w later = Writes-trans w (later a u)
  go_on-Safe (err e) f t u w later = w

  record_manifest-Safe :
      {free : Bool} (o : Operation) (r : EvidenceRef)
      → Safe free
          (record_manifest checksum paths reference_text manifest_digest batch_size fault_at o r)
  unfolding record_manifest advance
  record_manifest-Safe o r t = one (keeps refl refl refl)

  write_manifest-Safe :
      {free : Bool} (o : Operation)
      → Safe free
          (write_manifest checksum paths reference_text manifest_digest batch_size fault_at o)
  unfolding write_manifest
  write_manifest-Safe o t =
      let stored : Result EvidenceRef × EvidenceStore =
        put paths
          (manifest_reference checksum paths reference_text manifest_digest batch_size fault_at o)
          t.evidence in
      go_on-Safe stored.0
        (record_manifest checksum paths reference_text manifest_digest batch_size fault_at o) t
        (record t { evidence = stored.1 }) (one (keeps refl refl refl)) (record_manifest-Safe o)

  bounded-Safe :
      {free : Bool} (act : Operation → Run (Unit {0})) (b : Boundary)
      → ((o : Operation) → Safe free (act o))
      → (o : Operation)
      → Safe free
          (bounded checksum paths reference_text manifest_digest batch_size fault_at act b o)
  bounded-Safe act b safe o = then_go-Safe (act o) _ (safe o) (λ _ t. done)

  module _ (free : Bool) (approval : Approval) (now : ℕ) where
    phases-Safe :
        (edges : List Edge) (id : String)
        → AllSafe free (
            phases checksum paths reference_text manifest_digest batch_size fault_at approval edges
              now id)
    unfolding phases
    phases-Safe edges id = (
      (λ o. phase-Safe id _ _ o (bounded-Safe _ _ (λ _. reserve_operation-Safe id now))),
      (
        (λ o. phase-Safe id _ _ o (bounded-Safe _ _ write_manifest-Safe)),
        (
          (λ o. phase-Safe id _ _ o (bounded-Safe _ _ (λ o. create_namespace-Safe o now))),
          (
            (λ o. phase-Safe id _ _ o (λ _. write_edges-Safe batch_size _ _ id _)),
            (
              (λ o. phase-Safe id _ _ o (bounded-Safe _ _ verify-Safe)),
              (
                (λ o.
                    phase-Safe id _ _ o
                      (bounded-Safe _ _ (λ o. activate_operation-Safe o approval now))),
                (
                  (λ o. phase-Safe id _ _ o (bounded-Safe _ _ (λ o. deliver-Safe o now))),
                  ((λ o. phase-Safe id _ _ o complete-Safe), tt),
                ),
              ),
            ),
          ),
        ),
      ),
    )

    resume-Safe :
        (edges : List Edge) (o : Operation)
        → Safe free (
            resume checksum paths reference_text manifest_digest batch_size fault_at approval edges
              now o)
    unfolding resume
    resume-Safe edges o t = elim (Bool-cases (at_stage OperationStage.completed o)) [
      | inl finished ↦ rw finished done
      | inr open_stage ↦ elim (Bool-cases (has_failed o)) [
        | inl failed ↦ rw (open_stage, failed) done
        | inr runs ↦
            let ps : List (Operation → Run Operation) =
              phases checksum paths reference_text manifest_digest batch_size fault_at approval
                edges now o.operation_id in
            rw (open_stage, runs)
              (then_go-Safe (run_phases ps o) (λ last s. (result_from last, s))
                (run_phases-Safe ps o (phases-Safe edges o.operation_id)) (λ last s. done) t)
      ]
    ]

    pub publish_operation-Writes :
        (o : Operation) (edges : List Edge)
        → Safe free (
            publish_operation checksum paths reference_text manifest_digest batch_size fault_at o
              approval edges now)
    unfolding publish_operation
    publish_operation-Writes o edges =
        then_go-Safe (ensure_operation o)
          (resume checksum paths reference_text manifest_digest batch_size fault_at approval edges
            now)
          (ensure_operation-Safe o) (resume-Safe edges)

    module _ (operation_id : String → String → ℕ → String → String)
        (package_digest : String → String → String → String) (discard : Bool) where
      pub publish-Writes :
          (p : Proposal) (env : String)
          → Safe free (
              publish checksum paths reference_text manifest_digest batch_size fault_at operation_id
                package_digest discard p approval env now)
      publish-Writes p env t = elim (Bool-cases (approval_matches p approval)) [
        | inl good ↦ elim (Result-cases (projected_edges env p t)) [
          | inl (edges, found) ↦
              unfold publish in
              rw (good, found)
                (publish_operation-Writes
                  (new_operation checksum paths reference_text manifest_digest batch_size fault_at
                    operation_id package_digest discard env p approval edges now)
                  edges t)
          | inr (e, fails) ↦ unfold publish in rw (good, fails) done
        ]
        | inr bad ↦ unfold publish in rw bad done
      ]
