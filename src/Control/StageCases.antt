-- ===== src/Control/StageCases.antt =====
-- What `complete` and `record_stage` have found and written when they did not raise.
use lineage_collection.Prelude.{
  ℕ, String, ◌≡◌, ◌⊎◌, inl, inr, true, Option, none, some, List, [], ◌∷◌, ◌++◌, arith, select,
  update, matching, Option-cases, Bool-cases,
}
use mathlib.Core.Option
use lineage_collection.Models.{Command, Lease, StageIdentity, StageResult}
use lineage_collection.Database.{Database, CommandRow, StageRow}
use lineage_collection.Database.Transaction.{ok}
use lineage_collection.Control
use lineage_collection.Control.{
  has_command, has_key, is_running, same_submission, new_command, ended, still_is, leased, held_by,
  active_lease, renewed_row, completed_row, failed_row, result_matches_lease,
  result_matches_command, has_stage_key, stage_row,
}
use lineage_collection.Control.Stages.{
  same_checksum, store_result, finish_command, is_done, record_found, complete_tx, record_stage_tx,
}

-- The results after one is stored under a key that held `stored`.
abbrev pub stages_after : String → StageResult → Option StageRow → List StageRow → List StageRow
stages_after key r none stages = stages ++ stage_row key r ∷ []
stages_after key r (some s) stages = stages

-- The output that counts.
abbrev pub output_of : StageResult → Option StageRow → String
output_of r none = r.output_ref
output_of r (some s) = s.output_ref

pub record Finishes (lease : Lease) (r : StageResult) (key : String) (row : CommandRow)
    (stored : Option StageRow) (now : ℕ) (db db' : Database) (c : Command) : Type 0 where
  pub active : active_lease row lease now ≡ true
  pub commands :
      db'.commands ≡ update (held_by lease) (completed_row (output_of r stored) now) db.commands
  pub one : matching (held_by lease) db.commands ≡ 1
  pub stages : db'.stage_results ≡ stages_after key r stored db.stage_results
  pub returned :
      Option.map (λ x. x.command) (select (has_command lease.command_id) db'.commands) ≡ some c

finish_ok :
    (db db' : Database) (lease : Lease) (r : StageResult) (key : String) (row : CommandRow)
    (stored : Option StageRow) (now : ℕ) {c : Command}
    → finish_command lease r key row stored now db ≡ ok (c, db')
    → Finishes lease r key row stored now db db' c
unfolding finish_command store_result Control.update_held Control.update_commands
    Control.finish_attempt Control.required_row
finish_ok db db' lease r key row none now e = record {
  active = ground arith;
  commands = ground arith;
  one = ground arith;
  stages = ground arith;
  returned = ground arith;
}
finish_ok db db' lease r key row (some s) now e = record {
  active = ground arith;
  commands = ground arith;
  one = ground arith;
  stages = ground arith;
  returned = ground arith;
}

module _ (idempotency_key : StageIdentity → String) (db db' : Database) where
  abbrev pub stored_under : StageResult → Option StageRow
  stored_under r = select (has_stage_key (idempotency_key r.identity)) db.stage_results

  -- A completion that committed found the command done, or completed it under the lease.
  pub complete_ok :
      (lease : Lease) (r : StageResult) (now : ℕ) {c : Command}
      → complete_tx idempotency_key lease r now db ≡ ok (c, db')
      → (row : CommandRow) × (select (has_command lease.command_id) db.commands ≡ some row)
        × (result_matches_command row.command r.identity ≡ true)
        × (same_checksum (stored_under r) r ≡ true)
        × ((is_done row (stored_under r) ≡ true) × (c ≡ row.command) × (db' ≡ db)
            ⊎ Finishes lease r (idempotency_key r.identity) row (stored_under r) now db db' c)
  unfolding complete_tx Control.required_row
  complete_ok lease r now {c} e =
      elim (Option-cases (select (has_command lease.command_id) db.commands)) [
        | inl missing ↦ absurd (ground arith)
        | inr (row, found) ↦ (
          row,
          found,
          ground arith,
          ground arith,
          elim (Bool-cases (is_done row (stored_under r))) [
            | inl done ↦ inl (ground arith)
            | inr open_command ↦ inr (
                finish_ok db db' lease r (idempotency_key r.identity) row (stored_under r) now
                  (ground arith))
          ],
        )
      ]

  pub record_stage_ok :
      (lease : Lease) (r : StageResult) (now : ℕ) {stored : StageResult}
      → record_stage_tx idempotency_key lease r now db ≡ ok (stored, db')
      → (db'.commands ≡ db.commands)
        × (db'.stage_results
            ≡ stages_after (idempotency_key r.identity) r (stored_under r) db.stage_results)
  unfolding record_stage_tx Control.required_row record_found
  record_stage_ok lease r now e = elim (Option-cases (stored_under r)) [
    | inl fresh ↦ rw fresh (ground arith)
    | inr (s, found) ↦ rw found (ground arith)
  ]
