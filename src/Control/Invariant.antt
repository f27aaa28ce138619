-- ===== src/Control/Invariant.antt =====
-- The well-formedness of the commands of SQLiteCommandStore, under its calls.
use mathlib.Core.Path.{subst}
use lineage_collection.Prelude.{
  ℕ, ◌≤◌, ◌<◌, String, ◌≡◌, ◌≢◌, refl, sym, Bool, true, false, none, some, List, [], ◌∷◌, ◌++◌,
  arith, eq_iff, Has, AllRows, UniqueBy, update, select, select-Has, select-none, AllRows-update,
  AllRows-append, UniqueBy-update, UniqueBy-append, any, any-false,
}
use lineage_collection.Models.{Command, Lease, StageIdentity, queued, same_status}
use lineage_collection.Database.{Database, CommandRow, empty}
use lineage_collection.Control.{
  has_command, has_key, is_running, new_command, ended, still_is, leased, held_by, renewed_row,
  completed_row, failed_row,
}
use lineage_collection.Control.History.{Call, step, run}
use lineage_collection.Control.Effects.{
  Writes, nothing, adds, ends, takes, renewals, completions, failures, step-Effect,
}

-- A command has at most its bound of attempts, each under an epoch of its own, and a lease exactly
-- while it is running.
pub record RowIsValid (r : CommandRow) : Type 0 where
  pub capacity : 1 ≤ r.command.max_attempts
  pub bounded : r.command.attempt ≤ r.command.max_attempts
  pub epochs : r.command.attempt ≤ r.lease_epoch
  pub held_owner : is_running r ≡ true → r.lease_owner ≢ none
  pub held_expiry : is_running r ≡ true → r.lease_expires_at ≢ none
  pub free_owner : is_running r ≡ false → r.lease_owner ≡ none
  pub free_expiry : is_running r ≡ false → r.lease_expires_at ≡ none

pub record IsValid (rows : List CommandRow) : Type 0 where
  pub rows_valid : AllRows RowIsValid rows
  pub identities : UniqueBy (λ r. r.command.command_id) rows
  pub keys : UniqueBy (λ r. r.command.idempotency_key) rows

update-IsValid :
    (p : CommandRow → Bool) (f : CommandRow → CommandRow) (rows : List CommandRow)
    → ((r : CommandRow) → (f r).command.command_id ≡ r.command.command_id)
    → ((r : CommandRow) → (f r).command.idempotency_key ≡ r.command.idempotency_key)
    → ((r : CommandRow) → Has r rows → RowIsValid r → p r ≡ true → RowIsValid (f r))
    → IsValid rows
    → IsValid (update p f rows)
update-IsValid p f rows id key keep v = record {
  rows_valid = AllRows-update RowIsValid p f rows keep v.rows_valid;
  identities = UniqueBy-update (λ r. r.command.command_id) p f rows id v.identities;
  keys = UniqueBy-update (λ r. r.command.idempotency_key) p f rows key v.keys;
}

new_command-RowIsValid :
    (c : Command) (now : ℕ)
    → 1 ≤ c.max_attempts
    → c.attempt ≡ 0
    → same_status c.status queued ≡ true
    → RowIsValid (new_command c now)
unfolding new_command
new_command-RowIsValid c now positive first waits = ground arith

ended-RowIsValid :
    (code : String) (now : ℕ) (r : CommandRow) → RowIsValid r → RowIsValid (ended code now r)
unfolding ended
ended-RowIsValid code now r v = ground arith

renewed-RowIsValid :
    (lease : Lease) (expires_at now : ℕ) (r : CommandRow)
    → held_by lease r ≡ true
    → RowIsValid r
    → RowIsValid (renewed_row expires_at now r)
unfolding renewed_row held_by
renewed-RowIsValid lease expires_at now r h v = ground arith

completed-RowIsValid :
    (output : String) (now : ℕ) (r : CommandRow)
    → RowIsValid r
    → RowIsValid (completed_row output now r)
unfolding completed_row
completed-RowIsValid output now r v = ground arith

failed-RowIsValid :
    (b : Bool) (code : String) (now : ℕ) (r : CommandRow)
    → RowIsValid r
    → RowIsValid (failed_row b code now r)
unfolding failed_row
failed-RowIsValid true code now r v = ground arith
failed-RowIsValid false code now r v = ground arith

leased-RowIsValid :
    (owner : String) (expires_at now : ℕ) (r : CommandRow)
    → r.command.attempt < r.command.max_attempts
    → RowIsValid r
    → RowIsValid (leased r owner expires_at now r)
unfolding leased
leased-RowIsValid owner expires_at now r left v = ground arith

still_is_lem :
    (row r : CommandRow) → still_is row r ≡ true → r.command.command_id ≡ row.command.command_id
unfolding still_is
still_is_lem row r h = ground (arith, eq_iff r.command.command_id row.command.command_id)

module _ (db : Database) (v : IsValid db.commands) where
  adds-IsValid :
      (c : Command) (now : ℕ)
      → select (has_key c.idempotency_key) db.commands ≡ none
      → any (has_command c.command_id) db.commands ≡ false
      → RowIsValid (new_command c now)
      → IsValid (db.commands ++ new_command c now ∷ [])
  unfolding new_command
  adds-IsValid c now fresh new_id row_valid = record {
    rows_valid = AllRows-append RowIsValid db.commands (new_command c now) v.rows_valid row_valid;
    identities =
        UniqueBy-append (λ r. r.command.command_id) db.commands (new_command c now)
          (λ r h e. cc (
            any-false (has_command c.command_id) db.commands new_id r h,
            (eq_iff r.command.command_id c.command_id).1 e,
          ))
          v.identities;
    keys =
        UniqueBy-append (λ r. r.command.idempotency_key) db.commands (new_command c now)
          (λ r h e. cc (
            select-none (has_key c.idempotency_key) db.commands r fresh h,
            (eq_iff r.command.idempotency_key c.idempotency_key).1 e,
          ))
          v.keys;
  }

  takes-IsValid :
      (row : CommandRow) (id owner : String) (expires_at now : ℕ)
      → select (has_command id) db.commands ≡ some row
      → row.command.attempt < row.command.max_attempts
      → IsValid (update (still_is row) (leased row owner expires_at now) db.commands)
  takes-IsValid row id owner expires_at now found left =
      update-IsValid (still_is row) (leased row owner expires_at now) db.commands
        (λ r. unfold leased in refl) (λ r. unfold leased in refl)
        (λ r hr row_valid hit.
          let same : row ≡ r = sym (
            v.identities r row hr (select-Has (has_command id) db.commands found).0
              (still_is_lem row r hit)) in
          subst (λ x. RowIsValid (leased x owner expires_at now r)) (sym same)
            (leased-RowIsValid owner expires_at now r
              (subst (λ (x : CommandRow). x.command.attempt < x.command.max_attempts) same left)
              row_valid))
        v

  Writes-IsValid : {rows : List CommandRow} → Writes db rows → IsValid rows
  Writes-IsValid nothing = v
  Writes-IsValid (adds c now fresh new_id positive first waits) =
      adds-IsValid c now fresh new_id (new_command-RowIsValid c now positive first waits)
  Writes-IsValid (ends id code now) =
      update-IsValid (has_command id) (ended code now) db.commands (λ r. unfold ended in refl)
        (λ r. unfold ended in refl) (λ r _ row_valid _. ended-RowIsValid code now r row_valid) v
  Writes-IsValid (takes row id owner expires_at now found left) =
      takes-IsValid row id owner expires_at now found left
  Writes-IsValid (renewals lease expires_at now) =
      update-IsValid (held_by lease) (renewed_row expires_at now) db.commands
        (λ r. unfold renewed_row in refl) (λ r. unfold renewed_row in refl)
        (λ r _ row_valid hit. renewed-RowIsValid lease expires_at now r hit row_valid) v
  Writes-IsValid (completions lease output now) =
      update-IsValid (held_by lease) (completed_row output now) db.commands
        (λ r. unfold completed_row in refl) (λ r. unfold completed_row in refl)
        (λ r _ row_valid _. completed-RowIsValid output now r row_valid) v
  Writes-IsValid (failures lease b code now) =
      update-IsValid (held_by lease) (failed_row b code now) db.commands
        (λ r. unfold failed_row in refl) (λ r. unfold failed_row in refl)
        (λ r _ row_valid _. failed-RowIsValid b code now r row_valid) v

module _ (key_of : StageIdentity → String) where
  pub step-IsValid :
      (db : Database) (c : Call) → IsValid db.commands → IsValid (step key_of db c).commands
  step-IsValid db c v = Writes-IsValid db v (step-Effect key_of db c).commands

  pub run-IsValid_from :
      (db : Database) (cs : List Call) → IsValid db.commands → IsValid (run key_of db cs).commands
  unfolding run
  run-IsValid_from db [] v = v
  run-IsValid_from db (c ∷ cs) v = run-IsValid_from (step key_of db c) cs (step-IsValid db c v)

  -- From the empty database, after any calls, each command has between none and `max_attempts`
  -- attempts, an epoch of at least their number, an owner and an expiry exactly while it is running,
  -- and an identity and an idempotency key of its own.
  pub commands-IsValid : (cs : List Call) → IsValid (run key_of empty cs).commands
  commands-IsValid cs = run-IsValid_from empty cs (record {
    rows_valid = λ r h. absurd h;
    identities = λ a b ha hb e. absurd ha;
    keys = λ a b ha hb e. absurd ha;
  })
