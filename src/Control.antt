-- ===== src/Control.antt =====
-- `SQLiteCommandStore` of infrastructure/sqlite_control.py: commands with leases, an epoch that fences
-- stale workers, bounded attempts, and results of stages.
-- The clock's reading is the argument `now`. `StageIdentity.idempotency_key` is a SHA-256 digest; the
-- sections below take it as a parameter.
mod Rows
pub mod Stages
pub mod Cases
pub mod StageCases
pub mod History
pub mod Effects
pub mod Invariant
pub mod Evolution
pub mod Holds
pub mod Respect
pub mod Exclusion
pub mod Leases
pub mod Submission
unfoldable pub use Rows.*
use lineage_collection.Prelude.{
  ℕ, ◌+◌, ◌*◌, String, Bool, true, false, not, ◌&&◌, Option, none, some, List, [], ◌∷◌, ◌++◌, ltb,
  leb, eqb, any, nonempty, ◌==◌, if◌then◌else◌, select, update, matching,
}
use mathlib.Core.Option
use lineage_collection.Clock.{second, in_calendar}
use lineage_collection.Models.{
  Command, CommandStatus, queued, running, retry_wait, completed, failed_redrivable,
  failed_terminal, same_status, Lease, StageIdentity, StageResult,
}
use lineage_collection.Database.{Database, CommandRow, AttemptRow, AttemptStatus, StageRow}
use lineage_collection.Database.Transaction.{
  Result, ok, err, Tx, Error, value_error, overflow_error, command_not_found, command_state,
  lease_unavailable, stale_lease, attempts_exhausted, deadline_exceeded, idempotency_conflict,
  constraint_failed, ◌>>=◌, ◌>>◌, guard, modify, pure, gets, or_raise, raise, transaction,
}

-- The INSERT of `_submit`, with the constraints of the table: the primary key and the check on
-- `max_attempts`.
unfoldable pub insert_command : Command → ℕ → Tx Database Command
insert_command c now = do
  same_id ← gets (λ db. any (has_command c.command_id) db.commands)
  guard (not same_id && leb 1 c.max_attempts) constraint_failed
  modify (λ db. record db { commands = db.commands ++ new_command c now ∷ [] })
  pure c

-- `_submit`, after the lookup of the idempotency key
unfoldable pub submit_found : Command → ℕ → Option CommandRow → Tx Database Command
submit_found c now (some row) = do
  guard (same_submission row.command c) idempotency_conflict
  pure row.command
submit_found c now none = insert_command c now

-- `submit` inside a transaction that is already open
unfoldable pub submit_tx : Command → ℕ → Tx Database Command
submit_tx c now = do
  guard (same_status c.status queued && eqb c.attempt 0) command_state
  row ← gets (λ db. select (has_key c.idempotency_key) db.commands)
  submit_found c now row

unfoldable pub submit : Command → ℕ → Database → Result Command × Database
submit c now = transaction (submit_tx c now)

unfoldable pub get : String → Database → Option Command
get id db = Option.map (λ r. r.command) (select (has_command id) db.commands)

-- `_required_row`
unfoldable pub required_row : String → Tx Database CommandRow
required_row id = do
  row ← gets (λ db. select (has_command id) db.commands)
  or_raise row command_not_found

unfoldable pub update_commands :
    (CommandRow → Bool) → (CommandRow → CommandRow) → Database → Database
update_commands p f db = record db { commands = update p f db.commands }

-- `_finish_attempt`
unfoldable pub finish_attempt :
    Command → ℕ → AttemptStatus → ℕ → Option String → Database → Database
finish_attempt c epoch status completed_at error_code db = record db {
  attempts =
      update (same_attempt c.command_id c.attempt epoch) (finished status completed_at error_code)
        db.attempts;
}

-- What `claim` does with a running command: only a lease that has run out is closed.
unfoldable pub close_expired : CommandRow → ℕ → Tx Database (Unit {0})
close_expired row now = do
  expiry ← or_raise row.lease_expires_at value_error
  guard (leb expiry now) lease_unavailable
  modify (
      finish_attempt row.command row.lease_epoch AttemptStatus.lease_expired now
        (some "LEASE_EXPIRED"))

unfoldable pub claimable : CommandStatus → Bool
claimable queued = true
claimable retry_wait = true
claimable failed_redrivable = true
claimable _ = false

unfoldable pub new_attempt : CommandRow → String → ℕ → AttemptRow
new_attempt row owner now = record {
  command_id = row.command.command_id;
  attempt = row.command.attempt + 1;
  lease_epoch = row.lease_epoch + 1;
  owner = owner;
  status = AttemptStatus.running;
  started_at = now;
  completed_at = none;
  error_code = none;
}

-- The INSERT into `command_attempts`, with its primary key.
unfoldable pub insert_attempt : AttemptRow → Tx Database (Unit {0})
insert_attempt a = do
  taken ← gets (λ db. any (same_attempt a.command_id a.attempt a.lease_epoch) db.attempts)
  guard (not taken) constraint_failed
  modify (λ db. record db { attempts = db.attempts ++ a ∷ [] })

-- The end of `claim`: the next attempt under the next epoch.
unfoldable pub take_lease : CommandRow → String → ℕ → ℕ → Tx Database Lease
take_lease row owner expires_at now = do
  changed ← gets (λ db. matching (still_is row) db.commands)
  modify (update_commands (still_is row) (leased row owner expires_at now))
  guard (eqb changed 1) lease_unavailable
  insert_attempt (new_attempt row owner now)
  pure (record {
    command_id = row.command.command_id;
    owner = owner;
    epoch = row.lease_epoch + 1;
    expires_at = expires_at;
  })

-- A command that has run out of attempts is marked so, unless it is marked as ended already.
unfoldable pub end_exhausted : CommandRow → ℕ → Database → Database
end_exhausted row now db =
    if same_status row.command.status failed_terminal
    then db
    else update_commands (has_command row.command.command_id) (ended "ATTEMPTS_EXHAUSTED" now) db

-- The branches of `claim`. The first two commit, and raise after the commit.
unfoldable pub claim_ended : (Database → Database) → Error → Tx Database (Result Lease)
claim_ended f e = do modify f; pure (err e)

unfoldable pub claim_running : CommandRow → String → ℕ → ℕ → Tx Database (Result Lease)
claim_running row owner expires_at now = do
  close_expired row now
  lease ← take_lease row owner expires_at now
  pure (ok lease)

unfoldable pub claim_waiting : CommandRow → String → ℕ → ℕ → Tx Database (Result Lease)
claim_waiting row owner expires_at now = do
  guard (claimable row.command.status) command_state
  lease ← take_lease row owner expires_at now
  pure (ok lease)

-- Their order: attempts, deadline, a running command, any other.
unfoldable pub claim_row : CommandRow → String → ℕ → ℕ → Tx Database (Result Lease)
claim_row row owner expires_at now =
    if leb row.command.max_attempts row.command.attempt
    then claim_ended (end_exhausted row now) attempts_exhausted
    else if leb row.command.deadline_at now
    then claim_ended
        (update_commands (has_command row.command.command_id) (ended "DEADLINE_EXCEEDED" now))
        deadline_exceeded
    else if is_running row
    then claim_running row owner expires_at now
    else claim_waiting row owner expires_at now

unfoldable pub claim_tx : String → String → ℕ → ℕ → Tx Database (Result Lease)
claim_tx id owner lease_seconds now = do
  guard (nonempty owner) value_error
  guard (leb 1 lease_seconds) value_error
  guard (in_calendar (now + lease_seconds * second)) overflow_error
  row ← required_row id
  claim_row row owner (now + lease_seconds * second) now

-- The deferred error is raised outside of the transaction.
abbrev pub deferred : Result (Result Lease) × Database → Result Lease × Database
deferred (ok r, db) = (r, db)
deferred (err e, db) = (err e, db)

unfoldable pub claim : String → String → ℕ → ℕ → Database → Result Lease × Database
claim id owner lease_seconds now db =
    deferred (transaction (claim_tx id owner lease_seconds now) db)

-- An UPDATE under the fence of the lease, which must change exactly one row.
unfoldable pub update_held : Lease → (CommandRow → CommandRow) → Tx Database (Unit {0})
update_held lease f = do
  changed ← gets (λ db. matching (held_by lease) db.commands)
  modify (update_commands (held_by lease) f)
  guard (eqb changed 1) stale_lease

unfoldable pub renew_tx : Lease → ℕ → ℕ → Tx Database Lease
renew_tx lease lease_seconds now = do
  guard (leb 1 lease_seconds) value_error
  guard (in_calendar (now + lease_seconds * second)) overflow_error
  row ← required_row lease.command_id
  guard (active_lease row lease now) stale_lease
  update_held lease (renewed_row (now + lease_seconds * second) now)
  pure (record lease { expires_at = now + lease_seconds * second })

unfoldable pub renew : Lease → ℕ → ℕ → Database → Result Lease × Database
renew lease lease_seconds now = transaction (renew_tx lease lease_seconds now)

-- Whether a failed command can be tried again.
abbrev pub can_retry : Bool → Command → ℕ → Bool
can_retry retryable c now = retryable && (ltb c.attempt c.max_attempts && ltb now c.deadline_at)

unfoldable pub fail_tx : Lease → String → Bool → ℕ → Tx Database Command
fail_tx lease code retryable now = do
  guard (nonempty code) value_error
  row ← required_row lease.command_id
  guard (active_lease row lease now) stale_lease
  update_held lease (failed_row (can_retry retryable row.command now) code now)
  modify (finish_attempt row.command lease.epoch AttemptStatus.failed now (some code))
  failed ← required_row lease.command_id
  pure failed.command

unfoldable pub fail : Lease → String → Bool → ℕ → Database → Result Command × Database
fail lease code retryable now = transaction (fail_tx lease code retryable now)
