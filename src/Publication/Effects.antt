-- ===== src/Publication/Effects.antt =====
-- The writes of `reserve`, `stage`, `activate`, `rollback` and `promote_existing` (services/publisher.py).
use lineage_collection.Prelude.{
  ℕ, ◌+◌, String, Bool, true, not, ◌≡◌, refl, ◌⊎◌, inl, inr, Option, none, some, List, [], ◌∷◌,
  ◌++◌, any, select, arith, Bool-cases, Option-cases,
}
use lineage_collection.Database.Transaction.{Result, ok, err, Tx, transaction, transaction-keeps}
use lineage_collection.Publication.Tables.{
  Edge, Pointer, PublishReservation, StagedNamespace, staging, GraphVersion, GraphTables,
}
use lineage_collection.Publication
use lineage_collection.Publication.{
  pointer_of, reservation_of, version_at, version_name, edge_at, edge_row, last_token, points_at,
  upsert_reservation, retire_active, make_active, move_pointer, close_reservation, owns_fence,
  reserve_tx, reserve, insert_edges, stage_tx, stage, activate_tx, activate, matches, stored_edges,
  promote_tx, promote_reserved, promote_existing, supported_action, rollback_tx, rollback,
  insert_audit, new_audit,
}
use lineage_collection.Publication.Writes.{
  Write, reserves, adds, moves, rolls_back, Writes, done, one, Writes-trans, new_reservation,
}

-- A transaction that writes what it should whenever it commits.
pub committed-Writes :
    {free : Bool} {A : Type 0} (m : Tx GraphTables A) (t : GraphTables)
    → ((a : A) (t' : GraphTables) → m t ≡ ok (a, t') → Writes free t t')
    → Writes free t (transaction m t).1
committed-Writes {free} m t after = transaction-keeps (Writes free t) m t done after

pub upsert_pointers :
    (r : PublishReservation) (o : Option PublishReservation) (t : GraphTables)
    → ((upsert_reservation r o t).pointers ≡ t.pointers)
      × ((upsert_reservation r o t).versions ≡ t.versions)
      × ((upsert_reservation r o t).operations ≡ t.operations)
unfolding upsert_reservation
upsert_pointers r none t = (refl, refl, refl)
upsert_pointers r (some x) t = (refl, refl, refl)

pub insert_edges-same :
    (env version : String) (es : List Edge) (t t' : GraphTables) (u : Unit {0})
    → insert_edges env version es t ≡ ok (u, t')
    → (t'.pointers ≡ t.pointers) × (t'.reservations ≡ t.reservations) × (t'.versions ≡ t.versions)
unfolding insert_edges
insert_edges-same env version [] t t' u e = ground arith
insert_edges-same env version (x ∷ es) t t' u e = ground (
  arith,
  insert_edges-same env version es (record t { edges = t.edges ++ edge_row env version x ∷ [] }) t'
      u,
)

module _ {free : Bool} where
  pub reserve_tx-Write :
      (env prior : String) (now : ℕ) (t t' : GraphTables) (r : PublishReservation)
      → reserve_tx env prior now t ≡ ok (r, t')
      → Write free t t'
  unfolding reserve_tx
  reserve_tx-Write env prior now t t' r e =
      elim (Option-cases (select (pointer_of env) t.pointers)) [
        | inl missing ↦ absurd (ground arith)
        | inr (p, found) ↦
            let existing : Option PublishReservation = select (reservation_of env) t.reservations in
            let new : PublishReservation = new_reservation env prior now p existing in
            let (a, b, _) = upsert_pointers new existing t in
            reserves env prior now p found (ground (arith, a)) (ground arith) (ground (arith, b))
      ]

  pub reserve-Writes :
      (env prior : String) (now : ℕ) (t : GraphTables) → Writes free t (reserve env prior now t).1
  unfolding reserve
  reserve-Writes env prior now t =
      committed-Writes (reserve_tx env prior now) t
        λ r t' e. one (reserve_tx-Write env prior now t t' r e)

  rollback_tx-Write :
      (env target actor correlation_id audit_id : String) (now : ℕ) (t t' : GraphTables)
      (p : Pointer)
      → free ≡ true
      → rollback_tx env target actor correlation_id audit_id now t ≡ ok (p, t')
      → Write free t t'
  unfolding rollback_tx insert_audit retire_active make_active move_pointer
  rollback_tx-Write env target actor correlation_id audit_id now t t' p f e =
      elim (Option-cases (select (pointer_of env) t.pointers)) [
        | inl missing ↦ absurd (ground arith)
        | inr (old, found) ↦
            rolls_back env target (old.fencing_token + 1) now f (ground arith) (ground arith)
              (ground arith)
      ]

  pub rollback-Writes :
      (env target actor correlation_id audit_id : String) (now : ℕ) (t : GraphTables)
      → free ≡ true
      → Writes free t (rollback env target actor correlation_id audit_id now t).1
  unfolding rollback
  rollback-Writes env target actor correlation_id audit_id now t f =
      committed-Writes (rollback_tx env target actor correlation_id audit_id now) t
        λ p t' e. one (rollback_tx-Write env target actor correlation_id audit_id now t t' p f e)

  module _ (checksum : List Edge → String) where
    stage_tx-Write :
        (r : PublishReservation) (edges : List Edge) (manifest_ref : String) (now : ℕ)
        (t t' : GraphTables) (s : StagedNamespace)
        → stage_tx checksum r edges manifest_ref now t ≡ ok (s, t')
        → Write free t t'
    unfolding stage_tx
    stage_tx-Write r edges manifest_ref now t t' s e =
        elim (Bool-cases (any (version_at r.env (version_name r.token)) t.versions)) [
          | inl taken ↦ absurd (ground arith)
          | inr fresh ↦
              let g : GraphVersion = record {
                env = r.env;
                version = version_name r.token;
                state = staging;
                manifest_ref = some manifest_ref;
                checksum = checksum (Publication.sort_by (λ (e : Edge). e.edge_key) edges);
                created_at = now;
              } in
              let same =
                insert_edges-same r.env (version_name r.token)
                  (Publication.sort_by (λ (e : Edge). e.edge_key) edges)
                  (record t { versions = t.versions ++ g ∷ [] }) t' tt in
              adds g refl fresh (ground (arith, same)) (ground (arith, same)) (ground (arith, same))
        ]

    pub stage-Writes :
        (r : PublishReservation) (edges : List Edge) (manifest_ref : String) (now : ℕ)
        (t : GraphTables)
        → Writes free t (stage checksum r edges manifest_ref now t).1
    unfolding stage
    stage-Writes r edges manifest_ref now t =
        committed-Writes (stage_tx checksum r edges manifest_ref now) t
          λ s t' e. one (stage_tx-Write r edges manifest_ref now t t' s e)

    activate_tx-Write :
        (r : PublishReservation) (s : StagedNamespace) (now : ℕ) (t t' : GraphTables) (p : Pointer)
        → (free ≡ true) ⊎ (r.env ≡ s.env)
        → activate_tx checksum r s now t ≡ ok (p, t')
        → Write free t t'
    unfolding activate_tx retire_active make_active move_pointer close_reservation
    activate_tx-Write r s now t t' p f e =
        moves r.env s.env s.namespace_version r.token now (version_at s.env s.namespace_version) f
          (λ g h. h) (ground arith) (ground arith) (ground arith) (ground arith)

    pub activate-Writes :
        (r : PublishReservation) (s : StagedNamespace) (now : ℕ) (t : GraphTables)
        → (free ≡ true) ⊎ (r.env ≡ s.env)
        → Writes free t (activate checksum r s now t).1
    unfolding activate
    activate-Writes r s now t f =
        committed-Writes (activate_tx checksum r s now) t
          λ p t' e. one (activate_tx-Write r s now t t' p f e)

    promote_tx-Write :
        (r : PublishReservation)
        (target expected_checksum actor correlation_id action audit_id : String) (now : ℕ)
        (t t' : GraphTables) (p : Pointer)
        → promote_tx checksum r target expected_checksum actor correlation_id action audit_id now t
          ≡ ok (p, t')
        → Write free t t'
    unfolding promote_tx insert_audit retire_active make_active move_pointer close_reservation
    promote_tx-Write r target expected_checksum actor correlation_id action audit_id now t t' p e =
        moves r.env r.env target r.token now (version_at r.env target) (inr refl) (λ g h. h)
          (ground arith) (ground arith) (ground arith) (ground arith)

    pub promote_reserved-Writes :
        (target expected_checksum actor correlation_id action audit_id : String) (now : ℕ)
        (r : Result PublishReservation) (t : GraphTables)
        → Writes free t
            (promote_reserved checksum target expected_checksum actor correlation_id action audit_id
              now r t).1
    unfolding promote_reserved
    promote_reserved-Writes target expected_checksum actor correlation_id action audit_id now
          (err e) t =
        done
    promote_reserved-Writes target expected_checksum actor correlation_id action audit_id now (ok r)
          t =
        committed-Writes
          (promote_tx checksum r target expected_checksum actor correlation_id action audit_id now)
          t
          λ p t' e. one (
            promote_tx-Write r target expected_checksum actor correlation_id action audit_id now t
              t' p e)

    pub promote_existing-Writes :
        (env target prior expected_checksum actor correlation_id action audit_id : String)
        (reserved_at now : ℕ) (t : GraphTables)
        → Writes free t
            (promote_existing checksum
              (λ s. s)
              env
              target
              prior
              expected_checksum
              actor
              correlation_id
              action
              audit_id
              reserved_at
              now
              t).1
    unfolding promote_existing
    promote_existing-Writes env target prior expected_checksum actor correlation_id action audit_id
          reserved_at now t =
        elim (Bool-cases (not (supported_action action))) [
          | inl unknown ↦ rw unknown done
          | inr known ↦ rw known (
              Writes-trans (reserve-Writes env prior reserved_at t) (
                promote_reserved-Writes target expected_checksum actor correlation_id action
                  audit_id now (reserve env prior reserved_at t).0
                  (reserve env prior reserved_at t).1))
        ]
