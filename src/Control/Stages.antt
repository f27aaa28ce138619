-- ===== src/Control/Stages.antt =====
-- The results of stages: `complete`, `record_stage` and `completed_stage`.
use lineage_collection.Prelude.{
  ℕ, String, Bool, true, false, Option, none, some, [], ◌∷◌, ◌++◌, ◌==◌, if◌then◌else◌, select,
}
use mathlib.Core.Option
use lineage_collection.Models.{Command, completed, same_status, Lease, StageIdentity, StageResult}
use lineage_collection.Database.{Database, CommandRow, AttemptStatus, StageRow}
use lineage_collection.Database.Transaction.{
  Result, Tx, stale_lease, idempotency_conflict, ◌>>=◌, ◌>>◌, guard, modify, pure, gets,
  transaction,
}
use lineage_collection.Control.{
  active_lease, result_matches_lease, result_matches_command, has_stage_key, stage_row,
  completed_row, required_row, update_held, finish_attempt,
}

-- The checksum of a stored result is the one given.
unfoldable pub same_checksum : Option StageRow → StageResult → Bool
same_checksum none r = true
same_checksum (some s) r = s.output_checksum == r.output_checksum

-- A result is stored only if its key is free; the output of the stored one counts.
unfoldable pub store_result : String → StageResult → Option StageRow → Tx Database String
store_result key r none = do
  modify (λ db. record db { stage_results = db.stage_results ++ stage_row key r ∷ [] })
  pure r.output_ref
store_result key r (some s) = pure s.output_ref

unfoldable pub finish_command :
    Lease → StageResult → String → CommandRow → Option StageRow → ℕ → Tx Database Command
finish_command lease r key row stored now = do
  guard (active_lease row lease now) stale_lease
  output_ref ← store_result key r stored
  update_held lease (completed_row output_ref now)
  modify (finish_attempt row.command lease.epoch AttemptStatus.completed now none)
  written ← required_row lease.command_id
  pure written.command

-- A command that is complete, and whose result is stored, is returned as it is.
unfoldable pub is_done : CommandRow → Option StageRow → Bool
is_done row none = false
is_done row (some s) = same_status row.command.status completed

unfoldable pub stage_result : StageIdentity → StageRow → StageResult
stage_result identity s = record {
  identity = identity;
  command_id = s.command_id;
  output_ref = s.output_ref;
  output_checksum = s.output_checksum;
  lease_epoch = s.lease_epoch;
  completed_at = s.completed_at;
}

-- `record_stage`, after the lookups
unfoldable pub record_found :
    Lease → StageResult → String → CommandRow → ℕ → Option StageRow → Tx Database StageResult
record_found lease r key row now (some s) = do
  guard (s.output_checksum == r.output_checksum) idempotency_conflict
  pure (stage_result r.identity s)
record_found lease r key row now none = do
  guard (active_lease row lease now) stale_lease
  modify (λ db. record db { stage_results = db.stage_results ++ stage_row key r ∷ [] })
  pure r

-- `StageIdentity.idempotency_key`
module _ (idempotency_key : StageIdentity → String) where
  unfoldable pub complete_tx : Lease → StageResult → ℕ → Tx Database Command
  complete_tx lease r now = do
    guard (result_matches_lease lease r) stale_lease
    row ← required_row lease.command_id
    guard (result_matches_command row.command r.identity) idempotency_conflict
    stored ← gets (λ db. select (has_stage_key (idempotency_key r.identity)) db.stage_results)
    guard (same_checksum stored r) idempotency_conflict
    if is_done row stored
        then pure row.command
        else finish_command lease r (idempotency_key r.identity) row stored now

  unfoldable pub complete : Lease → StageResult → ℕ → Database → Result Command × Database
  complete lease r now = transaction (complete_tx lease r now)

  unfoldable pub record_stage_tx : Lease → StageResult → ℕ → Tx Database StageResult
  record_stage_tx lease r now = do
    guard (result_matches_lease lease r) stale_lease
    row ← required_row lease.command_id
    guard (result_matches_command row.command r.identity) idempotency_conflict
    stored ← gets (λ db. select (has_stage_key (idempotency_key r.identity)) db.stage_results)
    record_found lease r (idempotency_key r.identity) row now stored

  unfoldable pub record_stage : Lease → StageResult → ℕ → Database → Result StageResult × Database
  record_stage lease r now = transaction (record_stage_tx lease r now)

  unfoldable pub completed_stage : StageIdentity → Database → Option StageResult
  completed_stage identity db =
      Option.map (stage_result identity)
        (select (has_stage_key (idempotency_key identity)) db.stage_results)
