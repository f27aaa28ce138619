-- ===== src/Control/Rows.antt =====
-- The rows of `commands` and `command_attempts` under the statements of infrastructure/sqlite_control.py:
-- which rows a statement takes, and what it writes.
use lineage_collection.Prelude.{
  ℕ, ◌+◌, String, Bool, false, ◌&&◌, Option, none, some, ltb, eqb, column_is, ◌==◌, if◌then◌else◌,
}
use lineage_collection.Models.{
  Command, running, completed, failed_redrivable, failed_terminal, same_status, same_kind, Lease,
  StageIdentity, StageResult,
}
use lineage_collection.Database.{CommandRow, AttemptRow, AttemptStatus, StageRow}

abbrev pub has_command : String → CommandRow → Bool
has_command id r = r.command.command_id == id

abbrev pub has_key : String → CommandRow → Bool
has_key key r = r.command.idempotency_key == key

abbrev pub is_running : CommandRow → Bool
is_running r = same_status r.command.status running

-- `_submission_identity` of both commands is the same.
unfoldable pub same_submission : Command → Command → Bool
same_submission a b =
    same_kind a.workflow_kind b.workflow_kind
    && (a.workflow_version == b.workflow_version
        && (a.scope == b.scope
            && (a.artifact_digest == b.artifact_digest
                && (a.determinant_digest == b.determinant_digest && a.input_ref == b.input_ref))))

-- The row that the INSERT of `_submit` writes.
unfoldable pub new_command : Command → ℕ → CommandRow
new_command c now = record {
  command = c;
  lease_owner = none;
  lease_epoch = 0;
  lease_expires_at = none;
  last_error_code = none;
  updated_at = now;
}

-- The two UPDATEs of `claim` that end a command, with their error codes.
unfoldable pub ended : String → ℕ → CommandRow → CommandRow
ended code now r = record r {
  command = record (r.command) { status = failed_terminal };
  lease_owner = none;
  lease_expires_at = none;
  last_error_code = some code;
  updated_at = now;
}

-- The UPDATE of `claim` that takes the lease: its rows, and what it writes.
unfoldable pub still_is : CommandRow → CommandRow → Bool
still_is row r =
    has_command row.command.command_id r
    && (same_status r.command.status row.command.status && eqb r.lease_epoch row.lease_epoch)

unfoldable pub leased : CommandRow → String → ℕ → ℕ → CommandRow → CommandRow
leased row owner expires_at now r = record r {
  command = record (r.command) { status = running; attempt = row.command.attempt + 1 };
  lease_owner = some owner;
  lease_epoch = row.lease_epoch + 1;
  lease_expires_at = some expires_at;
  last_error_code = none;
  updated_at = now;
}

-- WHERE command_id = ? AND status = 'RUNNING' AND lease_owner = ? AND lease_epoch = ?
unfoldable pub held_by : Lease → CommandRow → Bool
held_by l r =
    has_command l.command_id r
    && (is_running r && (column_is r.lease_owner l.owner && eqb r.lease_epoch l.epoch))

-- `_assert_active_lease`
unfoldable pub active_lease : CommandRow → Lease → ℕ → Bool
active_lease r l now =
    is_running r
    && (column_is r.lease_owner l.owner
        && (eqb r.lease_epoch l.epoch
            && elim r.lease_expires_at [ none ↦ false | some expiry ↦ ltb now expiry ]))

-- The UPDATE of `renew`.
unfoldable pub renewed_row : ℕ → ℕ → CommandRow → CommandRow
renewed_row expires_at now r = record r { lease_expires_at = some expires_at; updated_at = now }

-- The UPDATE of `complete`.
unfoldable pub completed_row : String → ℕ → CommandRow → CommandRow
completed_row output_ref now r = record r {
  command = record (r.command) { status = completed; output_ref = some output_ref };
  lease_owner = none;
  lease_expires_at = none;
  last_error_code = none;
  updated_at = now;
}

-- The UPDATE of `fail`.
unfoldable pub failed_row : Bool → String → ℕ → CommandRow → CommandRow
failed_row can_retry code now r = record r {
  command = record (r.command) {
    status = if can_retry then failed_redrivable else failed_terminal;
  };
  lease_owner = none;
  lease_expires_at = none;
  last_error_code = some code;
  updated_at = now;
}

-- `_assert_result_matches_lease`
unfoldable pub result_matches_lease : Lease → StageResult → Bool
result_matches_lease l s = s.command_id == l.command_id && eqb s.lease_epoch l.epoch

-- `_assert_result_matches_command`
unfoldable pub result_matches_command : Command → StageIdentity → Bool
result_matches_command c i =
    same_kind i.workflow_kind c.workflow_kind
    && (i.scope == c.scope
        && (i.artifact_digest == c.artifact_digest && i.determinant_digest == c.determinant_digest))

-- The primary key of `command_attempts`.
unfoldable pub same_attempt : String → ℕ → ℕ → AttemptRow → Bool
same_attempt id attempt epoch a =
    a.command_id == id && (eqb a.attempt attempt && eqb a.lease_epoch epoch)

-- The UPDATE of `_finish_attempt`.
unfoldable pub finished : AttemptStatus → ℕ → Option String → AttemptRow → AttemptRow
finished status completed_at error_code a = record a {
  status = status;
  completed_at = some completed_at;
  error_code = error_code;
}

abbrev pub has_stage_key : String → StageRow → Bool
has_stage_key key s = s.idempotency_key == key

-- The row of `stage_results` for a result.
unfoldable pub stage_row : String → StageResult → StageRow
stage_row key r = record {
  idempotency_key = key;
  command_id = r.command_id;
  output_ref = r.output_ref;
  output_checksum = r.output_checksum;
  lease_epoch = r.lease_epoch;
  completed_at = r.completed_at;
}
