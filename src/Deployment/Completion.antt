-- ===== src/Deployment/Completion.antt =====
-- `SQLiteDeploymentStore.complete` of infrastructure/sqlite_deployment.py.
use lineage_collection.Prelude.{
  String, Bool, true, false, ◌&&◌, Option, none, some, ◌==◌, any, select, update, if◌then◌else◌,
}
use lineage_collection.Database.Transaction.{
  Result, Tx, constraint_failed, ◌>>=◌, ◌>>◌, guard, modify, pure, gets, transaction,
}
use lineage_collection.Deployment.Tables.{
  succeeded, failed, DeploymentEvent, DeploymentPackage, Status, promoted, rolled_back,
  lineage_out_of_sync, failed_terminal, failed_no_change, DeploymentState, DeploymentResult,
  DeploymentTables,
}
use lineage_collection.Deployment.{
  has_event, has_package_digest, in_environment, state_of, column, result_of,
}

abbrev pub owns : String → String → String → DeploymentState → Bool
owns system environment event_id s = in_environment system environment s && s.event_id == event_id

unfoldable pub is_authoritative : DeploymentEvent → Option DeploymentState → Bool
is_authoritative e none = false
is_authoritative e (some s) = s.event_id == e.event_id

abbrev pub digest_of : Option DeploymentPackage → Option String
digest_of none = none
digest_of (some p) = some p.package_digest

-- COALESCE(?, graph_version)
abbrev pub coalesce : Option String → Option String → Option String
coalesce none b = b
coalesce (some a) b = some a

-- What the UPDATE of each branch writes.
unfoldable pub completed_state :
    DeploymentEvent
    → Status
    → Option DeploymentPackage
    → Option String
    → String
    → DeploymentState
    → DeploymentState
completed_state e promoted pkg graph_version now s = record s {
  deployed_artifact_digest = e.artifact_digest;
  lineage_package_digest = digest_of pkg;
  graph_version = graph_version;
  state = promoted;
  updated_at = now;
}
completed_state e rolled_back pkg graph_version now s = record s {
  deployed_artifact_digest = e.artifact_digest;
  lineage_package_digest = digest_of pkg;
  graph_version = graph_version;
  state = rolled_back;
  updated_at = now;
}
completed_state e lineage_out_of_sync pkg graph_version now s = record s {
  deployed_artifact_digest = e.artifact_digest;
  lineage_package_digest = none;
  graph_version = graph_version;
  state = lineage_out_of_sync;
  updated_at = now;
}
completed_state e failed_terminal pkg graph_version now s = elim e.outcome [
  | succeeded ↦ record s {
    deployed_artifact_digest = e.artifact_digest;
    lineage_package_digest = none;
    graph_version = coalesce graph_version s.graph_version;
    state = failed_terminal;
    updated_at = now;
  }
  | failed ↦ record s { state = failed_terminal; updated_at = now }
]
completed_state e status pkg graph_version now s = record s { state = status; updated_at = now }

abbrev pub is_activation : Status → Bool
is_activation promoted = true
is_activation rolled_back = true
is_activation _ = false

abbrev pub is_deployed : Status → Bool
is_deployed lineage_out_of_sync = true
is_deployed s = is_activation s

-- The foreign key of `lineage_package_digest`.
unfoldable pub package_known : Status → Option DeploymentPackage → DeploymentTables → Bool
package_known status none t = true
package_known status (some p) t =
    if is_activation status then any (has_package_digest p.package_digest) t.packages else true

-- The result, from the state that the UPDATE left.
unfoldable pub completion_result :
    DeploymentEvent
    → Bool
    → Status
    → Option String
    → Option DeploymentPackage
    → Option String
    → Option DeploymentState
    → DeploymentResult
completion_result e authoritative status reason pkg graph_version persisted =
    result_of e status reason
      (if authoritative && is_deployed status
        then e.artifact_digest
        else column (λ s. s.deployed_artifact_digest) persisted)
      (elim pkg [
        | none ↦ column (λ s. s.lineage_package_digest) persisted
        | some p ↦
            if authoritative && is_activation status
            then some p.package_digest
            else column (λ s. s.lineage_package_digest) persisted
      ])
      (if authoritative && is_deployed status
        then graph_version
        else column (λ s. s.graph_version) persisted)

unfoldable pub record_result :
    DeploymentEvent → DeploymentResult → String → DeploymentTables → DeploymentTables
record_result e result now t = record t {
  events =
      update (has_event e.event_id)
        (λ r. record r { status = result.state; result = some result; updated_at = now }) t.events;
}

unfoldable pub complete_owned :
    DeploymentEvent
    → Status
    → Option String
    → Option DeploymentPackage
    → Option String
    → String
    → Tx DeploymentTables DeploymentResult
complete_owned e status reason pkg graph_version now = do
  known ← gets (package_known status pkg)
  guard known constraint_failed
  modify (λ t. record t {
    states =
        update (owns e.system e.environment e.event_id)
          (completed_state e status pkg graph_version now) t.states;
  })
  persisted ← gets (state_of e.system e.environment)
  let result = completion_result e true status reason pkg graph_version persisted
  modify (record_result e result now)
  pure result

unfoldable pub complete_superseded :
    DeploymentEvent
    → Option DeploymentPackage
    → Option String
    → Option DeploymentState
    → String
    → Tx DeploymentTables DeploymentResult
complete_superseded e pkg graph_version persisted now = do
  let result =
      completion_result e false failed_no_change (some "SUPERSEDED") pkg graph_version persisted
  modify (record_result e result now)
  pure result

unfoldable pub stored_result : DeploymentEvent → DeploymentTables → Option DeploymentResult
stored_result e t = elim (select (has_event e.event_id) t.events) [
  | none ↦ none
  | some r ↦ r.result
]

unfoldable pub complete_tx :
    DeploymentEvent
    → Status
    → Option String
    → Option DeploymentPackage
    → Option String
    → String
    → Tx DeploymentTables DeploymentResult
complete_tx e status reason pkg graph_version now t = elim (stored_result e t) [
  | some r ↦ pure (record r { duplicate = true }) t
  | none ↦
      let current = state_of e.system e.environment t in
      let owned = complete_owned e status reason pkg graph_version now t in
      let superseded = complete_superseded e pkg graph_version current now t in
      if is_authoritative e current then owned else superseded
]

unfoldable pub complete :
    DeploymentEvent
    → Status
    → Option String
    → Option DeploymentPackage
    → Option String
    → String
    → DeploymentTables
    → Result DeploymentResult × DeploymentTables
complete e status reason pkg graph_version now =
    transaction (complete_tx e status reason pkg graph_version now)
