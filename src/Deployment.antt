-- ===== src/Deployment.antt =====
-- `SQLiteDeploymentStore` of infrastructure/sqlite_deployment.py: packages that are bound once, and one
-- row of state for each system and environment, which deployment events take over in their order.
pub mod Tables
pub mod Completion
pub mod Effects
pub mod Order
pub mod Replies
pub mod Workflow
pub mod Activation
pub mod Promotion
use lineage_collection.Prelude.{
  ℕ, String, Bool, true, false, not, ◌&&◌, ◌||◌, Option, none, some, List, [], ◌∷◌, ◌++◌, ◌==◌, ltb,
  leb, eqb, any, select, update, column_is, if◌then◌else◌,
}
use lineage_collection.Database.Transaction.{
  Result, ok, err, Tx, constraint_failed, package_not_approved, package_conflict, ◌>>=◌, ◌>>◌,
  guard, modify, pure, gets, transaction,
}
use lineage_collection.Deployment.Tables.{
  EventType, deployment, rollback, merge, Outcome, succeeded, failed, DeploymentEvent,
  DeploymentPackage, Status, processing, stale, promoted, rolled_back, lineage_out_of_sync,
  failed_terminal, failed_no_change, DeploymentState, DeploymentResult, EventRow, DeploymentClaim,
  claimed, resume, duplicate_of, stale_by, DeploymentTables,
}

abbrev pub has_artifact : String → String → String → DeploymentPackage → Bool
has_artifact system environment digest p =
    p.system == system && (p.environment == environment && p.artifact_digest == digest)

abbrev pub has_package_digest : String → DeploymentPackage → Bool
has_package_digest digest p = p.package_digest == digest

-- `==` of two packages, both approved
unfoldable pub same_package : DeploymentPackage → DeploymentPackage → Bool
same_package a b =
    a.package_digest == b.package_digest
    && (has_artifact b.system b.environment b.artifact_digest a
        && (a.graph_version == b.graph_version
            && (a.graph_checksum == b.graph_checksum
                && (a.manifest_ref == b.manifest_ref && a.approval_ref == b.approval_ref))))

unfoldable pub package_for : String → String → String → DeploymentTables → Option DeploymentPackage
package_for system environment digest t = select (has_artifact system environment digest) t.packages

-- What `register_package` does when the INSERT is refused.
unfoldable pub check_package :
    DeploymentPackage → Option DeploymentPackage → Result DeploymentPackage
check_package p none = err package_conflict
check_package p (some existing) = if same_package existing p then ok p else err package_conflict

-- The keys of `lineage_packages`: the digest, and the artifact of a system and environment.
unfoldable pub package_taken : DeploymentPackage → DeploymentTables → Bool
package_taken p t =
    any (has_package_digest p.package_digest) t.packages
    || any (has_artifact p.system p.environment p.artifact_digest) t.packages

unfoldable pub register_package :
    DeploymentPackage → DeploymentTables → Result DeploymentPackage × DeploymentTables
register_package p t =
    if not p.approved
    then (err package_not_approved, t)
    else if package_taken p t
    then (check_package p (package_for p.system p.environment p.artifact_digest t), t)
    else (ok p, record t { packages = t.packages ++ p ∷ [] })

abbrev pub has_event : String → EventRow → Bool
has_event id r = r.event.event_id == id

abbrev pub at_position : DeploymentEvent → EventRow → Bool
at_position e r =
    r.event.provider == e.provider
    && (r.event.system == e.system
        && (r.event.environment == e.environment
            && (eqb r.event.provider_sequence e.provider_sequence
                && eqb r.event.attempt e.attempt)))

abbrev pub is_merge : EventType → Bool
is_merge merge = true
is_merge _ = false

-- `deployment_events` takes the event: its keys are free and its checks hold.
unfoldable pub event_fits : DeploymentEvent → DeploymentTables → Bool
event_fits e t =
    not (any (has_event e.event_id) t.events)
    && (not (any (at_position e) t.events)
        && (not (is_merge e.event_type) && (leb 1 e.provider_sequence && leb 1 e.attempt)))

-- `_insert_event`
unfoldable pub insert_event :
    DeploymentEvent
    → Status
    → Option DeploymentResult
    → String
    → DeploymentTables
    → DeploymentTables
insert_event e status result now t = record t {
  events =
      t.events
      ++ record { event = e; status = status; result = result; created_at = now; updated_at = now }
        ∷ [];
}

abbrev pub in_environment : String → String → DeploymentState → Bool
in_environment system environment s = s.system == system && s.environment == environment

unfoldable pub state_of : String → String → DeploymentTables → Option DeploymentState
state_of system environment t = select (in_environment system environment) t.states

-- (provider_sequence, attempt) of the state is at least that of the event.
unfoldable pub not_newer : DeploymentEvent → Option DeploymentState → Bool
not_newer e none = false
not_newer e (some s) =
    ltb e.provider_sequence s.provider_sequence
    || (eqb e.provider_sequence s.provider_sequence && leb e.attempt s.attempt)

abbrev pub column : (DeploymentState → Option String) → Option DeploymentState → Option String
column f none = none
column f (some s) = f s

abbrev pub result_of :
    DeploymentEvent
    → Status
    → Option String
    → Option String
    → Option String
    → Option String
    → DeploymentResult
result_of e state reason digest package_digest graph_version = record {
  event_id = e.event_id;
  system = e.system;
  environment = e.environment;
  provider_sequence = e.provider_sequence;
  attempt = e.attempt;
  state = state;
  reason = reason;
  deployed_artifact_digest = digest;
  lineage_package_digest = package_digest;
  graph_version = graph_version;
  audit_ref = e.audit_ref;
  correlation_id = e.correlation_id;
  duplicate = false;
}

abbrev pub stale_result : DeploymentEvent → Option DeploymentState → DeploymentResult
stale_result e current =
    result_of e failed_no_change (some "STALE_EVENT")
      (column (λ s. s.deployed_artifact_digest) current)
      (column (λ s. s.lineage_package_digest) current) (column (λ s. s.graph_version) current)

-- The row of `deployment_state` that `claim` writes: an INSERT, or the UPDATE of its conflict clause.
unfoldable pub new_state : DeploymentEvent → String → DeploymentState
new_state e now = record {
  system = e.system;
  environment = e.environment;
  provider = e.provider;
  provider_sequence = e.provider_sequence;
  attempt = e.attempt;
  event_id = e.event_id;
  deployed_artifact_digest = none;
  lineage_package_digest = none;
  graph_version = none;
  state = processing;
  audit_ref = e.audit_ref;
  correlation_id = e.correlation_id;
  updated_at = now;
}

unfoldable pub taken_over : DeploymentEvent → String → DeploymentState → DeploymentState
taken_over e now s = record s {
  provider = e.provider;
  provider_sequence = e.provider_sequence;
  attempt = e.attempt;
  event_id = e.event_id;
  state = processing;
  audit_ref = e.audit_ref;
  correlation_id = e.correlation_id;
  updated_at = now;
}

unfoldable pub upsert_state :
    DeploymentEvent → String → Option DeploymentState → DeploymentTables → DeploymentTables
upsert_state e now none t = record t { states = t.states ++ new_state e now ∷ [] }
upsert_state e now (some s) t = record t {
  states = update (in_environment e.system e.environment) (taken_over e now) t.states;
}

-- `claim`, after the lookup of the event and of the state
unfoldable pub claim_new :
    DeploymentEvent
    → String
    → Option DeploymentState
    → DeploymentTables
    → DeploymentClaim × DeploymentTables
claim_new e now current t =
    if not_newer e current
    then (
      stale_by (stale_result e current),
      if event_fits e t then insert_event e stale (some (stale_result e current)) now t else t,
    )
    else if event_fits e t
    then (claimed, upsert_state e now current (insert_event e processing none now t))
    else (stale_by (stale_result e current), t)

unfoldable pub claim_found :
    DeploymentEvent
    → String
    → Option EventRow
    → DeploymentTables
    → DeploymentClaim × DeploymentTables
claim_found e now none t = claim_new e now (state_of e.system e.environment t) t
claim_found e now (some row) t = elim row.result [
  | none ↦ (resume, t)
  | some r ↦ (duplicate_of (record r { duplicate = true }), t)
]

-- No branch raises, so that every transaction commits.
unfoldable pub claim :
    DeploymentEvent → String → DeploymentTables → DeploymentClaim × DeploymentTables
claim e now t = claim_found e now (select (has_event e.event_id) t.events) t
