-- ===== src/Control/Evolution.antt =====
-- Commands and results of stages before and after calls of SQLiteCommandStore
-- (infrastructure/sqlite_control.py).
use mathlib.Core.Option
use lineage_collection.Prelude.{
  ◌≤◌, String, ◌≡◌, ap, ◌∙◌, inl, inr, Bool, true, some, List, [], ◌∷◌, ◌==◌, arith, update, select,
  select-update, select-append_some, set_if, Bool-cases,
}
use lineage_collection.Models.{StageIdentity}
use lineage_collection.Database.{Database, CommandRow, StageRow}
use lineage_collection.Control.{
  has_command, new_command, ended, still_is, leased, held_by, renewed_row, completed_row,
  failed_row, has_stage_key, stage_row,
}
use lineage_collection.Control.History.{Call, step, run}
use lineage_collection.Control.Effects.{
  Writes, nothing, adds, ends, takes, renewals, completions, failures, Stores, keeps, stores,
  step-Effect,
}

-- `new` is a later version of the row `old`.
pub record Evolves (old new : CommandRow) : Type 0 where
  pub command_id : new.command.command_id ≡ old.command.command_id
  pub idempotency_key : new.command.idempotency_key ≡ old.command.idempotency_key
  pub workflow_kind : new.command.workflow_kind ≡ old.command.workflow_kind
  pub workflow_version : new.command.workflow_version ≡ old.command.workflow_version
  pub scope : new.command.scope ≡ old.command.scope
  pub artifact_digest : new.command.artifact_digest ≡ old.command.artifact_digest
  pub determinant_digest : new.command.determinant_digest ≡ old.command.determinant_digest
  pub input_ref : new.command.input_ref ≡ old.command.input_ref
  pub epoch : old.lease_epoch ≤ new.lease_epoch

pub Evolves-refl : (r : CommandRow) → Evolves r r
Evolves-refl r = ground arith

Evolves-trans : {a b c : CommandRow} → Evolves a b → Evolves b c → Evolves a c
Evolves-trans x y = record {
  command_id = y.command_id ∙ x.command_id;
  idempotency_key = y.idempotency_key ∙ x.idempotency_key;
  workflow_kind = y.workflow_kind ∙ x.workflow_kind;
  workflow_version = y.workflow_version ∙ x.workflow_version;
  scope = y.scope ∙ x.scope;
  artifact_digest = y.artifact_digest ∙ x.artifact_digest;
  determinant_digest = y.determinant_digest ∙ x.determinant_digest;
  input_ref = y.input_ref ∙ x.input_ref;
  epoch = omega (arith, x.epoch, y.epoch);
}

-- The first row that a test finds is a later version of `old`.
abbrev pub ReachesBy : (CommandRow → Bool) → CommandRow → List CommandRow → Type 0
ReachesBy q old rows = (r : CommandRow) × (select q rows ≡ some r) × Evolves old r

-- The command `id` is there, as a later version of `old`.
abbrev pub Reaches : String → CommandRow → List CommandRow → Type 0
Reaches id = ReachesBy (has_command id)

-- A test that no call changes on a row, such as one of its identity.
module _ (q : CommandRow → Bool) (stable : (a b : CommandRow) → Evolves a b → q b ≡ q a)
    (old : CommandRow) where
  update-ReachesBy :
      (p : CommandRow → Bool) (f : CommandRow → CommandRow) (rows : List CommandRow)
      → ((r : CommandRow) → p r ≡ true → Evolves r (f r))
      → ReachesBy q old rows
      → ReachesBy q old (update p f rows)
  update-ReachesBy p f rows grows (r, found, e) = (
    set_if p f r,
    select-update q p f rows kept ∙ ap (Option.map (set_if p f)) found,
    Evolves-trans e (evolves r),
  )
    where
      evolves : (x : CommandRow) → Evolves x (set_if p f x)
      evolves x = elim (Bool-cases (p x)) [
        | inl hit ↦ rw hit (grows x hit)
        | inr miss ↦ rw miss (Evolves-refl x)
      ]

      kept : (x : CommandRow) → q (set_if p f x) ≡ q x
      kept x = stable x (set_if p f x) (evolves x)

  Writes-ReachesBy :
      (db : Database) {rows : List CommandRow}
      → Writes db rows
      → ReachesBy q old db.commands
      → ReachesBy q old rows
  Writes-ReachesBy db nothing h = h
  Writes-ReachesBy db (adds c now _ _ _ _ _) (r, found, e) =
      (r, select-append_some q db.commands (new_command c now ∷ []) r found, e)
  Writes-ReachesBy db (ends i code now) h =
      update-ReachesBy (has_command i) (ended code now) db.commands
        (λ r _. unfold ended in ground arith) h
  Writes-ReachesBy db (takes row i owner expires_at now _ _) h =
      update-ReachesBy (still_is row) (leased row owner expires_at now) db.commands
        (λ r hit. unfold leased still_is in ground arith) h
  Writes-ReachesBy db (renewals lease expires_at now) h =
      update-ReachesBy (held_by lease) (renewed_row expires_at now) db.commands
        (λ r _. unfold renewed_row in ground arith) h
  Writes-ReachesBy db (completions lease output now) h =
      update-ReachesBy (held_by lease) (completed_row output now) db.commands
        (λ r _. unfold completed_row in ground arith) h
  Writes-ReachesBy db (failures lease b code now) h =
      update-ReachesBy (held_by lease) (failed_row b code now) db.commands
        (λ r _. unfold failed_row in ground arith) h

  pub run-ReachesBy :
      (key_of : StageIdentity → String) (db : Database) (cs : List Call)
      → ReachesBy q old db.commands
      → ReachesBy q old (run key_of db cs).commands
  unfolding run
  run-ReachesBy key_of db [] h = h
  run-ReachesBy key_of db (c ∷ cs) h =
      run-ReachesBy key_of (step key_of db c) cs
        (Writes-ReachesBy db (step-Effect key_of db c).commands h)

pub run-Reaches :
    (id : String) (old : CommandRow) (key_of : StageIdentity → String) (db : Database)
    (cs : List Call)
    → Reaches id old db.commands
    → Reaches id old (run key_of db cs).commands
run-Reaches id old =
    run-ReachesBy (has_command id) (λ a b (e : Evolves a b). ap (λ i. i == id) e.command_id) old

module _ (key_of : StageIdentity → String) (key : String) (s : StageRow) where
  Stores-keeps :
      {stages stages' : List StageRow}
      → Stores key_of stages stages'
      → select (has_stage_key key) stages ≡ some s
      → select (has_stage_key key) stages' ≡ some s
  Stores-keeps keeps h = h
  Stores-keeps {stages} (stores r fresh) h =
      select-append_some (has_stage_key key) stages (stage_row (key_of r.identity) r ∷ []) s h

  -- The stored result of a stage is the same after any further calls.
  pub stage_result_immutable :
      (db : Database) (cs : List Call)
      → select (has_stage_key key) db.stage_results ≡ some s
      → select (has_stage_key key) (run key_of db cs).stage_results ≡ some s
  unfolding run
  stage_result_immutable db [] h = h
  stage_result_immutable db (c ∷ cs) h =
      stage_result_immutable (step key_of db c) cs (Stores-keeps (step-Effect key_of db c).stages h)
