-- ===== src/Publication/History.antt =====
-- Histories of calls of PublisherService (services/publisher.py), by any callers with any reservations
-- and namespaces in hand, stale ones included. A `publish` may be cut short at any of its boundaries.
use lineage_collection.Prelude.{ℕ, String, Bool, true, ◌≡◌, ◌⊎◌, inl, List, [], ◌∷◌, refl}
use lineage_collection.Database.Transaction.{ok}
use lineage_collection.Evidence.{KeyPaths, EvidenceRef}
use lineage_collection.Publication
use lineage_collection.Publication.Tables.{
  Edge, PublishReservation, StagedNamespace, Operation, GraphTables,
}
use lineage_collection.Publication.Operations.{Proposal, Approval}
use lineage_collection.Publication.Publish
use lineage_collection.Publication.Publish.{Boundary}
use lineage_collection.Publication.Writes.{Writes, done, Writes-trans}
use lineage_collection.Publication.Effects.{
  reserve-Writes, stage-Writes, activate-Writes, rollback-Writes, promote_existing-Writes,
  promote_reserved-Writes,
}
use lineage_collection.Publication.Resumption.{publish-Writes}

-- The digests, pathlib's reading of a key, the size of a batch and the policy on a failed verification.
pub record Setup : Type 0 where
  pub checksum : List Edge → String
  pub paths : KeyPaths
  pub reference_text : EvidenceRef → String
  pub manifest_digest : Operation → String
  pub batch_size : ℕ
  pub operation_id : String → String → ℕ → String → String
  pub package_digest : String → String → String → String
  pub discard : Bool

-- `promotes_reserved` is the second transaction of a `promote_existing` whose first is a `reserves`: other
-- calls may come between the two.
pub data Call : Type 0 where
  reserves : String → String → ℕ → Call
  stages : PublishReservation → List Edge → String → ℕ → Call
  activates : PublishReservation → StagedNamespace → ℕ → Call
  rolls_back : String → String → String → String → String → ℕ → Call
  promotes : String → String → String → String → String → String → String → String → ℕ → ℕ → Call
  promotes_reserved :
      PublishReservation → String → String → String → String → String → String → ℕ → Call
  publishes : (Boundary → Bool) → Proposal → Approval → String → ℕ → Call

-- Calls but rollbacks, and activations of a namespace under a reservation of another environment.
abbrev pub Admits : Bool → Call → Type 0
Admits free (activates r s now) = (free ≡ true) ⊎ (r.env ≡ s.env)
Admits free (rolls_back env target actor correlation_id audit_id now) = free ≡ true
Admits free (reserves env prior now) = Unit {0}
Admits free (stages r edges manifest_ref now) = Unit {0}
Admits free
      (promotes env target prior expected actor correlation_id action audit_id reserved_at now) =
    Unit {0}
Admits free (promotes_reserved r target expected actor correlation_id action audit_id now) =
    Unit {0}
Admits free (publishes fault_at p approval env now) = Unit {0}

abbrev pub AllAdmit : Bool → List Call → Type 0
AllAdmit free [] = Unit {0}
AllAdmit free (c ∷ cs) = Admits free c × AllAdmit free cs

module _ (setup : Setup) where
  unfoldable pub step : GraphTables → Call → GraphTables
  step t (reserves env prior now) = (Publication.reserve env prior now t).1
  step t (stages r edges manifest_ref now) =
      (Publication.stage setup.checksum r edges manifest_ref now t).1
  step t (activates r s now) = (Publication.activate setup.checksum r s now t).1
  step t (rolls_back env target actor correlation_id audit_id now) =
      (Publication.rollback env target actor correlation_id audit_id now t).1
  step t (promotes env target prior expected actor correlation_id action audit_id reserved_at now) =
      (Publication.promote_existing setup.checksum (λ s. s) env target prior expected actor
        correlation_id action audit_id reserved_at now t).1
  step t (promotes_reserved r target expected actor correlation_id action audit_id now) =
      (Publication.promote_reserved setup.checksum target expected actor correlation_id action
        audit_id now (ok r) t).1
  step t (publishes fault_at p approval env now) =
      (Publish.publish setup.checksum setup.paths setup.reference_text setup.manifest_digest
        setup.batch_size fault_at setup.operation_id setup.package_digest setup.discard p approval
        env now t).1

  unfoldable pub run : GraphTables → List Call → GraphTables
  run t [] = t
  run t (c ∷ cs) = run (step t c) cs

  pub step-Writes :
      (free : Bool) (t : GraphTables) (c : Call) → Admits free c → Writes free t (step t c)
  unfolding step
  step-Writes free t (reserves env prior now) h = reserve-Writes env prior now t
  step-Writes free t (stages r edges manifest_ref now) h =
      stage-Writes setup.checksum r edges manifest_ref now t
  step-Writes free t (activates r s now) h = activate-Writes setup.checksum r s now t h
  step-Writes free t (rolls_back env target actor correlation_id audit_id now) h =
      rollback-Writes env target actor correlation_id audit_id now t h
  step-Writes free t
        (promotes env target prior expected actor correlation_id action audit_id reserved_at now)
        h =
      promote_existing-Writes setup.checksum env target prior expected actor correlation_id action
        audit_id reserved_at now t
  step-Writes free t (promotes_reserved r target expected actor correlation_id action audit_id now)
        h =
      promote_reserved-Writes setup.checksum target expected actor correlation_id action audit_id
        now (ok r) t
  step-Writes free t (publishes fault_at p approval env now) h =
      publish-Writes setup.checksum setup.paths setup.reference_text setup.manifest_digest
        setup.batch_size fault_at free approval now setup.operation_id setup.package_digest
        setup.discard p env t

  pub run-Writes :
      (free : Bool) (t : GraphTables) (cs : List Call) → AllAdmit free cs → Writes free t (run t cs)
  unfolding run
  run-Writes free t [] h = done
  run-Writes free t (c ∷ cs) h =
      Writes-trans (step-Writes free t c h.0) (run-Writes free (step t c) cs h.1)

  Admits-all : (c : Call) → Admits true c
  Admits-all (activates r s now) = inl refl
  Admits-all (rolls_back env target actor correlation_id audit_id now) = refl
  Admits-all (reserves env prior now) = tt
  Admits-all (stages r edges manifest_ref now) = tt
  Admits-all
        (promotes env target prior expected actor correlation_id action audit_id reserved_at now) =
      tt
  Admits-all (promotes_reserved r target expected actor correlation_id action audit_id now) = tt
  Admits-all (publishes fault_at p approval env now) = tt

  AllAdmit-all : (cs : List Call) → AllAdmit true cs
  AllAdmit-all [] = tt
  AllAdmit-all (c ∷ cs) = (Admits-all c, AllAdmit-all cs)

  -- Every history writes as the relation says.
  pub history-Writes : (t : GraphTables) (cs : List Call) → Writes true t (run t cs)
  history-Writes t cs = run-Writes true t cs (AllAdmit-all cs)
