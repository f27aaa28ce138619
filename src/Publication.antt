-- ===== src/Publication.antt =====
-- `PublisherService` of services/publisher.py: a pointer for each environment, moved under a fence. Here
-- `pointer`, `reserve`, `stage`, `activate`, `rollback` and `promote_existing`; `publish` is in the child
-- Operations. The checksum of edges is a parameter (SHA-256 of their canonical JSON), and so is
-- the identity of an audit row (a random UUID).
pub mod Tables
pub mod Operations
pub mod Publish
pub mod Writes
pub mod Effects
pub mod Parts
pub mod Promoted
pub mod Resumption
pub mod History
pub mod Fences
pub mod Pointers
pub mod Versions
pub mod Rounds
use Prim.Native.String.{compare as compare_text}
use text.Mathlib.Text.{is_le}
use lineage_collection.Prelude.{
  ℕ, ◌+◌, String, Bool, true, false, not, ◌&&◌, ◌||◌, Option, none, some, List, [], ◌∷◌, ◌++◌, ◌==◌,
  leb, eqb, max, any, length, nonempty, join, decimal, select, select_all, update, if◌then◌else◌,
}
use lineage_collection.Database.Transaction.{
  Result, ok, err, Tx, value_error, pointer_not_found, pointer_conflict, fence_lost,
  verify_mismatch, rollback_not_found, constraint_failed, ◌>>=◌, ◌>>◌, guard, modify, pure, gets,
  or_raise, transaction,
}
use lineage_collection.Publication.Tables.{
  Edge, Pointer, ReservationStatus, reserved, activated, PublishReservation, VersionState, staging,
  active, prior, discarded, GraphVersion, GraphEdge, AuditEvent, StagedNamespace, GraphTables,
}

abbrev pub pointer_of : String → Pointer → Bool
pointer_of env p = p.env == env

abbrev pub reservation_of : String → PublishReservation → Bool
reservation_of env r = r.env == env

abbrev pub version_at : String → String → GraphVersion → Bool
version_at env version g = g.env == env && g.version == version

abbrev pub edge_in : String → String → GraphEdge → Bool
edge_in env version g = g.env == env && g.version == version

unfoldable pub pointer : String → GraphTables → Result Pointer
pointer env t = elim (select (pointer_of env) t.pointers) [
  | none ↦ err pointer_not_found
  | some p ↦ ok p
]

-- The pointer is there, and its active version is the one expected.
abbrev pub points_at : String → Option Pointer → Bool
points_at expected_prior none = false
points_at expected_prior (some p) = p.active_version == expected_prior

-- The greatest token that the pointer or a reservation has.
abbrev pub last_token : Pointer → Option PublishReservation → ℕ
last_token p none = p.fencing_token
last_token p (some r) = max p.fencing_token r.token

-- INSERT ... ON CONFLICT(env) DO UPDATE
unfoldable pub upsert_reservation :
    PublishReservation → Option PublishReservation → GraphTables → GraphTables
upsert_reservation r none t = record t { reservations = t.reservations ++ r ∷ [] }
upsert_reservation r (some _) t = record t {
  reservations = update (reservation_of r.env) (λ _. r) t.reservations;
}

-- `reserve`, and the part of `_reserve_operation` that is the same
unfoldable pub reserve_tx : String → String → ℕ → Tx GraphTables PublishReservation
reserve_tx env expected_prior now = do
  row ← gets (λ t. select (pointer_of env) t.pointers)
  guard (points_at expected_prior row) pointer_conflict
  p ← or_raise row pointer_conflict
  existing ← gets (λ t. select (reservation_of env) t.reservations)
  let reservation : PublishReservation = record {
    env = env;
    token = last_token p existing + 1;
    expected_prior = expected_prior;
    status = reserved;
    reserved_at = now;
  }
  modify (upsert_reservation reservation existing)
  pure reservation

unfoldable pub reserve : String → String → ℕ → GraphTables → Result PublishReservation × GraphTables
reserve env expected_prior now = transaction (reserve_tx env expected_prior now)

-- sorted(edges, key=edgeKey), and ORDER BY edge_key
module _ {A : Type 0} (key : A → String) where
  unfoldable pub insert_by : A → List A → List A
  insert_by e [] = e ∷ []
  insert_by e (x ∷ xs) =
      if is_le (compare_text (key e) (key x)) then e ∷ x ∷ xs else x ∷ insert_by e xs

  unfoldable pub sort_by : List A → List A
  sort_by [] = []
  sort_by (e ∷ es) = insert_by e (sort_by es)

-- f"v{token + 1}"
abbrev pub version_name : ℕ → String
version_name token = join ("v" ∷ decimal (token + 1) ∷ [])

abbrev pub edge_at : String → String → String → GraphEdge → Bool
edge_at env version key g = edge_in env version g && g.edge_key == key

abbrev pub edge_row : String → String → Edge → GraphEdge
edge_row env version e = record {
  env = env;
  version = version;
  edge_key = e.edge_key;
  payload = some e;
}

-- The INSERTs of `stage`; the primary key refuses a second edge of one key.
unfoldable pub insert_edges : String → String → List Edge → Tx GraphTables (Unit {0})
insert_edges env version [] t = ok (tt, t)
insert_edges env version (e ∷ es) t =
    if any (edge_at env version e.edge_key) t.edges
    then err constraint_failed
    else insert_edges env version es (record t { edges = t.edges ++ edge_row env version e ∷ [] })

abbrev pub payloads : List GraphEdge → Option (List Edge)
payloads [] = some []
payloads (g ∷ gs) = elim g.payload [
  | none ↦ none
  | some e ↦ elim (payloads gs) [ none ↦ none | some es ↦ some (e ∷ es) ]
]

-- SELECT payload_json ... ORDER BY edge_key
unfoldable pub stored_edges : String → String → GraphTables → Option (List Edge)
stored_edges env version t =
    payloads (sort_by (λ g. g.edge_key) (select_all (edge_in env version) t.edges))

abbrev pub valid_keys : List Edge → Bool
valid_keys [] = true
valid_keys (e ∷ es) = nonempty e.edge_key && valid_keys es

abbrev pub is_active : VersionState → Bool
is_active active = true
is_active _ = false

-- UPDATE graph_versions SET state = 'PRIOR' WHERE env = ? AND state = 'ACTIVE', and then the UPDATE that
-- makes one version active
unfoldable pub retire_active : String → GraphTables → GraphTables
retire_active env t = record t {
  versions =
      update (λ g. g.env == env && is_active g.state) (λ g. record g { state = prior }) t.versions;
}

unfoldable pub make_active : String → String → GraphTables → GraphTables
make_active env version t = record t {
  versions = update (version_at env version) (λ g. record g { state = active }) t.versions;
}

unfoldable pub move_pointer : String → String → ℕ → ℕ → GraphTables → GraphTables
move_pointer env version token now t = record t {
  pointers =
      update (pointer_of env)
        (λ p. record p { active_version = version; fencing_token = token; updated_at = now })
        t.pointers;
}

unfoldable pub close_reservation : String → GraphTables → GraphTables
close_reservation env t = record t {
  reservations = update (reservation_of env) (λ r. record r { status = activated }) t.reservations;
}

-- The reservation is still the current one.
abbrev pub owns_fence : ℕ → Option PublishReservation → Bool
owns_fence token none = false
owns_fence token (some r) =
    eqb r.token token && elim r.status [ reserved ↦ true | activated ↦ false ]

abbrev pub new_pointer : String → String → ℕ → ℕ → Pointer
new_pointer env version token now = record {
  env = env;
  active_version = version;
  fencing_token = token;
  updated_at = now;
}

abbrev pub new_audit : String → String → String → String → String → String → ℕ → AuditEvent
new_audit audit_id actor action env version correlation_id now = record {
  audit_id = audit_id;
  actor = actor;
  action = action;
  resource_type = "projection";
  resource_id = join (env ∷ ":" ∷ version ∷ []);
  correlation_id = correlation_id;
  created_at = now;
}

-- The INSERT into `audit_events`, with its primary key.
unfoldable pub insert_audit : AuditEvent → Tx GraphTables (Unit {0})
insert_audit a = do
  taken ← gets (λ t. any (λ (b : AuditEvent). b.audit_id == a.audit_id) t.audits)
  guard (not taken) constraint_failed
  modify (λ t. record t { audits = t.audits ++ a ∷ [] })

-- `rollback`
unfoldable pub rollback_tx : String → String → String → String → String → ℕ → Tx GraphTables Pointer
rollback_tx env target actor correlation_id audit_id now = do
  row ← gets (λ t. select (pointer_of env) t.pointers)
  known ← gets (λ t. any (version_at env target) t.versions)
  p ← or_raise row rollback_not_found
  guard known rollback_not_found
  modify (retire_active env)
  modify (make_active env target)
  modify (move_pointer env target (p.fencing_token + 1) now)
  insert_audit (new_audit audit_id actor "PROJECTION_ROLLBACK" env target correlation_id now)
  pure (new_pointer env target (p.fencing_token + 1) now)

unfoldable pub rollback :
    String → String → String → String → String → ℕ → GraphTables → Result Pointer × GraphTables
rollback env target actor correlation_id audit_id now =
    transaction (rollback_tx env target actor correlation_id audit_id now)

unfoldable pub supported_action : String → Bool
supported_action action = action == "DEPLOYMENT_PROMOTE" || action == "DEPLOYMENT_ROLLBACK"

module _ (checksum : List Edge → String) where
  unfoldable pub stage_tx :
      PublishReservation → List Edge → String → ℕ → Tx GraphTables StagedNamespace
  stage_tx r edges manifest_ref now = do
    taken ← gets (λ t. any (version_at r.env (version_name r.token)) t.versions)
    guard (not taken) constraint_failed
    modify (λ t. record t {
      versions =
          t.versions
          ++ record {
            env = r.env;
            version = version_name r.token;
            state = staging;
            manifest_ref = some manifest_ref;
            checksum = checksum (sort_by (λ (e : Edge). e.edge_key) edges);
            created_at = now;
          }
            ∷ [];
    })
    insert_edges r.env (version_name r.token) (sort_by (λ e. e.edge_key) edges)
    pure (record {
      env = r.env;
      namespace_version = version_name r.token;
      token = r.token;
      expected_prior = r.expected_prior;
      manifest_ref = manifest_ref;
      edge_checksum = checksum (sort_by (λ (e : Edge). e.edge_key) edges);
      edge_count = length (sort_by (λ (e : Edge). e.edge_key) edges);
    })

  unfoldable pub stage :
      PublishReservation
      → List Edge
      → String
      → ℕ
      → GraphTables
      → Result StagedNamespace × GraphTables
  stage r edges manifest_ref now = transaction (stage_tx r edges manifest_ref now)

  -- The edges that are stored are those that the manifest counts and sums up.
  abbrev pub matches : ℕ → String → Option (List Edge) → Bool
  matches count sum none = false
  matches count sum (some es) = valid_keys es && (eqb (length es) count && checksum es == sum)

  unfoldable pub activate_tx : PublishReservation → StagedNamespace → ℕ → Tx GraphTables Pointer
  activate_tx r s now = do
    current ← gets (λ t. select (reservation_of r.env) t.reservations)
    guard (owns_fence r.token current) fence_lost
    row ← gets (λ t. select (pointer_of r.env) t.pointers)
    guard (points_at r.expected_prior row) pointer_conflict
    found ← gets (stored_edges s.env s.namespace_version)
    guard (matches s.edge_count s.edge_checksum found) verify_mismatch
    modify (retire_active s.env)
    modify (make_active s.env s.namespace_version)
    modify (move_pointer s.env s.namespace_version r.token now)
    modify (close_reservation s.env)
    pure (new_pointer s.env s.namespace_version r.token now)

  unfoldable pub activate :
      PublishReservation → StagedNamespace → ℕ → GraphTables → Result Pointer × GraphTables
  activate r s now = transaction (activate_tx r s now)

  -- The stored version and its edges have the checksum expected.
  abbrev pub sums_to : String → Option GraphVersion → Option (List Edge) → Bool
  sums_to expected none _ = false
  sums_to expected (some g) none = false
  sums_to expected (some g) (some es) =
      valid_keys es && (g.checksum == expected && checksum es == expected)

  -- `promote_existing`, after its reservation
  unfoldable pub promote_tx :
      PublishReservation
      → String
      → String
      → String
      → String
      → String
      → String
      → ℕ
      → Tx GraphTables Pointer
  promote_tx r target expected_checksum actor correlation_id action audit_id now = do
    current ← gets (λ t. select (reservation_of r.env) t.reservations)
    guard (owns_fence r.token current) fence_lost
    row ← gets (λ t. select (pointer_of r.env) t.pointers)
    guard (points_at r.expected_prior row) pointer_conflict
    version ← gets (λ t. select (version_at r.env target) t.versions)
    found ← gets (stored_edges r.env target)
    guard (sums_to expected_checksum version found) verify_mismatch
    modify (retire_active r.env)
    modify (make_active r.env target)
    modify (move_pointer r.env target r.token now)
    modify (close_reservation r.env)
    insert_audit (new_audit audit_id actor action r.env target correlation_id now)
    pure (new_pointer r.env target r.token now)

  unfoldable pub promote_reserved :
      String
      → String
      → String
      → String
      → String
      → String
      → ℕ
      → Result PublishReservation
      → GraphTables
      → Result Pointer × GraphTables
  promote_reserved target expected_checksum actor correlation_id action audit_id now (err e) t =
      (err e, t)
  promote_reserved target expected_checksum actor correlation_id action audit_id now (ok r) t =
      transaction (promote_tx r target expected_checksum actor correlation_id action audit_id now) t

  -- The reservation commits before the promotion begins; `between` is what others do to the tables then.
  unfoldable pub promote_existing :
      (GraphTables → GraphTables)
      → String
      → String
      → String
      → String
      → String
      → String
      → String
      → String
      → ℕ
      → ℕ
      → GraphTables
      → Result Pointer × GraphTables
  unfolding promote_reserved
  promote_existing between env target expected_prior expected_checksum actor correlation_id action
        audit_id reserved_at now t =
      if not (supported_action action)
      then (err value_error, t)
      else (let (reservation, t') = reserve env expected_prior reserved_at t in
          promote_reserved target expected_checksum actor correlation_id action audit_id now
            reservation (between t'))
