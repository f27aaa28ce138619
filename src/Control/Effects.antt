-- ===== src/Control/Effects.antt =====
-- Each call of the store as one of a few effects on its tables: an induction over histories has one
-- case for each effect.
use mathlib.Core.Path.{subst}
use lineage_collection.Prelude.{
  ℕ, ◌+◌, ◌*◌, ◌≤◌, ◌<◌, String, ◌≡◌, refl, sym, ap, inl, inr, Bool, true, false, Option, none,
  some, List, [], ◌∷◌, ◌++◌, select, update, any, Bool-cases,
}
use lineage_collection.Clock.{second}
use lineage_collection.Models.{
  Command, Lease, StageIdentity, StageResult, queued, failed_terminal, same_status,
}
use lineage_collection.Database.{Database, CommandRow, StageRow}
use lineage_collection.Database.Transaction.{Result, ok, err, transaction-keeps, settle}
use lineage_collection.Control
use lineage_collection.Control.{
  has_command, has_key, new_command, ended, still_is, leased, held_by, active_lease, renewed_row,
  completed_row, failed_row, has_stage_key, stage_row,
}
use lineage_collection.Control.Stages.{complete, complete_tx, record_stage, record_stage_tx}
use lineage_collection.Control.Cases.{submit_ok, claim_ok, renew_ok, fail_ok}
use lineage_collection.Control.StageCases.{complete_ok, record_stage_ok, stages_after}
use lineage_collection.Control.History.{
  Call, submits, claims, renews, completes, fails, records, step,
}

-- What a call may do to the commands.
pub data Writes (db : Database) : List CommandRow → Type 0 where
  nothing : Writes db db.commands
  adds :
      (c : Command) (now : ℕ)
      → select (has_key c.idempotency_key) db.commands ≡ none
      → any (has_command c.command_id) db.commands ≡ false
      → 1 ≤ c.max_attempts
      → c.attempt ≡ 0
      → same_status c.status queued ≡ true
      → Writes db (db.commands ++ new_command c now ∷ [])
  ends :
      (id code : String) (now : ℕ)
      → Writes db (update (has_command id) (ended code now) db.commands)
  takes :
      (row : CommandRow) (id owner : String) (expires_at now : ℕ)
      → select (has_command id) db.commands ≡ some row
      → row.command.attempt < row.command.max_attempts
      → Writes db (update (still_is row) (leased row owner expires_at now) db.commands)
  renewals :
      (lease : Lease) (expires_at now : ℕ)
      → Writes db (update (held_by lease) (renewed_row expires_at now) db.commands)
  completions :
      (lease : Lease) (output_ref : String) (now : ℕ)
      → Writes db (update (held_by lease) (completed_row output_ref now) db.commands)
  failures :
      (lease : Lease) (can_retry : Bool) (code : String) (now : ℕ)
      → Writes db (update (held_by lease) (failed_row can_retry code now) db.commands)

-- What a call may do to the results of stages: nothing, or the INSERT of a key that is free.
pub data Stores (key_of : StageIdentity → String) (stages : List StageRow)
    : List StageRow → Type 0 where
  keeps : Stores key_of stages stages
  stores :
      (r : StageResult)
      → select (has_stage_key (key_of r.identity)) stages ≡ none
      → Stores key_of stages (stages ++ stage_row (key_of r.identity) r ∷ [])

stages_after-Stores :
    (key_of : StageIdentity → String) (r : StageResult) (stages : List StageRow)
    → Stores key_of stages (
        stages_after
          (key_of r.identity)
          r
          (select (has_stage_key (key_of r.identity)) stages)
          stages)
stages_after-Stores key_of r stages =
    by_lookup (select (has_stage_key (key_of r.identity)) stages) refl
  where
    by_lookup :
        (o : Option StageRow)
        → select (has_stage_key (key_of r.identity)) stages ≡ o
        → Stores key_of stages (stages_after (key_of r.identity) r o stages)
    by_lookup none e = stores r e
    by_lookup (some s) e = keeps

pub record Effect (key_of : StageIdentity → String) (db db' : Database) : Type 0 where
  pub commands : Writes db db'.commands
  pub stages : Stores key_of db.stage_results db'.stage_results

module _ (key_of : StageIdentity → String) (db : Database) where
  same-Effect : (db' : Database) → db' ≡ db → Effect key_of db db'
  same-Effect db' e =
      subst (Effect key_of db) (sym e) (record { commands = nothing; stages = keeps })

  written-Effect :
      (db' : Database) (commands : List CommandRow)
      → Writes db commands
      → db'.commands ≡ commands
      → db'.stage_results ≡ db.stage_results
      → Effect key_of db db'
  written-Effect db' commands w e s = record {
    commands = subst (Writes db) (sym e) w;
    stages = subst (Stores key_of db.stage_results) (sym s) keeps;
  }

  submit-Effect : (c : Command) (now : ℕ) → Effect key_of db (Control.submit c now db).1
  unfolding Control.submit
  submit-Effect c now =
      transaction-keeps (Effect key_of db) (Control.submit_tx c now) db (same-Effect db refl)
        λ stored db' e. elim (submit_ok db db' c now e) [
          | inl (row, _, _, _, same) ↦ same-Effect db' same
          | inr (fresh, new_id, positive, first, waits, _, added) ↦
              written-Effect db' (db.commands ++ new_command c now ∷ [])
                (adds c now fresh new_id positive first waits)
                (ap (λ (d : Database). d.commands) added)
                (ap (λ (d : Database). d.stage_results) added)
        ]

  renew-Effect :
      (lease : Lease) (lease_seconds now : ℕ)
      → Effect key_of db (Control.renew lease lease_seconds now db).1
  unfolding Control.renew
  renew-Effect lease lease_seconds now =
      transaction-keeps (Effect key_of db) (Control.renew_tx lease lease_seconds now) db
        (same-Effect db refl)
        λ l db' e.
          let (row, found, active, w, _) = renew_ok db db' lease lease_seconds now e in
          written-Effect db' _ (renewals lease (now + lease_seconds * second) now) w.commands
            w.stages

  fail-Effect :
      (lease : Lease) (code : String) (retryable : Bool) (now : ℕ)
      → Effect key_of db (Control.fail lease code retryable now db).1
  unfolding Control.fail
  fail-Effect lease code retryable now =
      transaction-keeps (Effect key_of db) (Control.fail_tx lease code retryable now) db
        (same-Effect db refl)
        λ c db' e.
          let (row, found, active, w, _) = fail_ok db db' lease code retryable now e in
          written-Effect db' _
            (failures lease (Control.can_retry retryable row.command now) code now) w.commands
            w.stages

  complete-Effect :
      (lease : Lease) (r : StageResult) (now : ℕ)
      → Effect key_of db (complete key_of lease r now db).1
  unfolding complete
  complete-Effect lease r now =
      transaction-keeps (Effect key_of db) (complete_tx key_of lease r now) db (same-Effect db refl)
        λ c db' e.
          let (row, found, matches, checksum, outcome) = complete_ok key_of db db' lease r now e in
          elim outcome [
            | inl (_, _, same) ↦ same-Effect db' same
            | inr f ↦ record {
              commands = subst (Writes db) (sym f.commands) (completions lease _ now);
              stages =
                  subst (Stores key_of db.stage_results) (sym f.stages)
                    (stages_after-Stores key_of r db.stage_results);
            }
          ]

  record_stage-Effect :
      (lease : Lease) (r : StageResult) (now : ℕ)
      → Effect key_of db (record_stage key_of lease r now db).1
  unfolding record_stage
  record_stage-Effect lease r now =
      transaction-keeps (Effect key_of db) (record_stage_tx key_of lease r now) db
        (same-Effect db refl)
        λ c db' e.
          let (same_commands, stored) = record_stage_ok key_of db db' lease r now e in
          record {
            commands = subst (Writes db) (sym same_commands) nothing;
            stages =
                subst (Stores key_of db.stage_results) (sym stored)
                  (stages_after-Stores key_of r db.stage_results);
          }

  end_exhausted-Effect :
      (row : CommandRow) (now : ℕ) → Effect key_of db (Control.end_exhausted row now db)
  unfolding Control.end_exhausted Control.update_commands
  end_exhausted-Effect row now =
      elim (Bool-cases (same_status row.command.status failed_terminal)) [
        | inl already ↦ rw already (same-Effect db refl)
        | inr fresh ↦
            rw fresh
              (written-Effect _ _ (ends row.command.command_id "ATTEMPTS_EXHAUSTED" now) refl refl)
      ]

  claim_tx-Effect :
      (id owner : String) (lease_seconds now : ℕ) (r : Result Lease) (db' : Database)
      → Control.claim_tx id owner lease_seconds now db ≡ ok (r, db')
      → Effect key_of db db'
  unfolding Control.update_commands
  claim_tx-Effect id owner lease_seconds now r db' e =
      let (row, found, outcome) = claim_ok db db' id owner lease_seconds now e in
      elim outcome [
        | inl (inl (_, _, written)) ↦
            subst (Effect key_of db) (sym written) (end_exhausted-Effect row now)
        | inl (inr (_, _, _, written)) ↦
            written-Effect db' _ (ends row.command.command_id "DEADLINE_EXCEEDED" now)
              (ap (λ (d : Database). d.commands) written)
              (ap (λ (d : Database). d.stage_results) written)
        | inr t ↦
            written-Effect db' _
              (takes row id owner (now + lease_seconds * second) now found t.attempts_left)
              t.written.commands t.written.stages
      ]

  claim-Effect :
      (id owner : String) (lease_seconds now : ℕ)
      → Effect key_of db (Control.claim id owner lease_seconds now db).1
  unfolding Control.claim
  claim-Effect id owner lease_seconds now =
      by_result (Control.claim_tx id owner lease_seconds now db) refl
    where
      by_result :
          (x : Result (Result Lease × Database))
          → Control.claim_tx id owner lease_seconds now db ≡ x
          → Effect key_of db (Control.deferred (settle db x)).1
      by_result (ok (r, db')) e = claim_tx-Effect id owner lease_seconds now r db' e
      by_result (err x) e = same-Effect db refl

  -- Every call has one of these effects.
  pub step-Effect : (c : Call) → Effect key_of db (step key_of db c)
  unfolding step
  step-Effect (submits c now) = submit-Effect c now
  step-Effect (claims id owner lease_seconds now) = claim-Effect id owner lease_seconds now
  step-Effect (renews lease lease_seconds now) = renew-Effect lease lease_seconds now
  step-Effect (completes lease r now) = complete-Effect lease r now
  step-Effect (fails lease code retryable now) = fail-Effect lease code retryable now
  step-Effect (records lease r now) = record_stage-Effect lease r now
