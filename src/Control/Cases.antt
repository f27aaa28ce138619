-- ===== src/Control/Cases.antt =====
-- What a call of the command store has found and written when it did not raise: on the commands, and
-- on the results of stages.
use lineage_collection.Prelude.{
  ℕ, ◌+◌, ◌*◌, ◌≤◌, ◌<◌, String, ◌≡◌, sym, ap, ◌∙◌, ◌⊎◌, inl, inr, Bool, true, false, none, some,
  [], ◌∷◌, ◌++◌, arith, leb, select, update, matching, Option-cases, Bool-cases, any,
}
use mathlib.Core.Option
use lineage_collection.Clock.{second}
use lineage_collection.Models.{Command, Lease, same_status}
use lineage_collection.Database.{Database, CommandRow}
use lineage_collection.Database.Transaction.{
  ok, err, Result, bind_ok, guard, pure, command_state, ◌>>=◌, attempts_exhausted,
  deadline_exceeded,
}
use lineage_collection.Control
use lineage_collection.Control.{
  has_command, has_key, is_running, same_submission, new_command, ended, still_is, leased, held_by,
  active_lease, renewed_row, completed_row, failed_row, result_matches_lease,
  result_matches_command, has_stage_key, stage_row,
}

-- The commands of `db'` are those of `db` under an UPDATE, and no result of a stage has changed.
pub record Updates (p : CommandRow → Bool) (f : CommandRow → CommandRow) (db db' : Database)
    : Type 0 where
  pub commands : db'.commands ≡ update p f db.commands
  pub stages : db'.stage_results ≡ db.stage_results

module _ (db db' : Database) where
  pub submit_ok :
      (c : Command) (now : ℕ) {stored : Command}
      → Control.submit_tx c now db ≡ ok (stored, db')
      → ((row : CommandRow) × (select (has_key c.idempotency_key) db.commands ≡ some row)
          × (same_submission row.command c ≡ true)
          × (stored ≡ row.command)
          × (db' ≡ db))
        ⊎ ((select (has_key c.idempotency_key) db.commands ≡ none)
            × (any (has_command c.command_id) db.commands ≡ false)
            × (1 ≤ c.max_attempts)
            × (c.attempt ≡ 0)
            × (same_status c.status Control.queued ≡ true)
            × (stored ≡ c)
            × (db' ≡ record db { commands = db.commands ++ new_command c now ∷ [] }))
  unfolding Control.submit_tx Control.submit_found Control.insert_command
  submit_ok c now {stored} e =
      elim (Option-cases (select (has_key c.idempotency_key) db.commands)) [
        | inl fresh ↦ inr (ground arith)
        | inr (row, found) ↦ inl (row, found, ground arith, ground arith, ground arith)
      ]

  take_lease_ok :
      (row : CommandRow) (owner : String) (expires_at now : ℕ) {lease : Lease}
      → Control.take_lease row owner expires_at now db ≡ ok (lease, db')
      → Updates (still_is row) (leased row owner expires_at now) db db'
        × (matching (still_is row) db.commands ≡ 1)
        × (lease ≡ record {
          command_id = row.command.command_id;
          owner = owner;
          epoch = row.lease_epoch + 1;
          expires_at = expires_at;
        })
  unfolding Control.take_lease Control.insert_attempt Control.update_commands
  take_lease_ok row owner expires_at now e = ground arith

  pub update_held_ok :
      (lease : Lease) (f : CommandRow → CommandRow) {u : Unit {0}}
      → Control.update_held lease f db ≡ ok (u, db')
      → (db' ≡ Control.update_commands (held_by lease) f db)
        × (matching (held_by lease) db.commands ≡ 1)
  unfolding Control.update_held
  update_held_ok lease f e = ground arith

  pub renew_ok :
      (lease : Lease) (lease_seconds now : ℕ) {renewed : Lease}
      → Control.renew_tx lease lease_seconds now db ≡ ok (renewed, db')
      → (row : CommandRow) × (select (has_command lease.command_id) db.commands ≡ some row)
        × (active_lease row lease now ≡ true)
        × Updates (held_by lease) (renewed_row (now + lease_seconds * second) now) db db'
        × (renewed ≡ record lease { expires_at = now + lease_seconds * second })
  unfolding Control.renew_tx Control.required_row Control.update_held Control.update_commands
  renew_ok lease lease_seconds now e =
      elim (Option-cases (select (has_command lease.command_id) db.commands)) [
        | inl missing ↦ absurd (ground arith)
        | inr (row, found) ↦ (row, found, ground arith, ground arith, ground arith)
      ]

  pub fail_ok :
      (lease : Lease) (code : String) (retryable : Bool) (now : ℕ) {failed : Command}
      → Control.fail_tx lease code retryable now db ≡ ok (failed, db')
      → (row : CommandRow) × (select (has_command lease.command_id) db.commands ≡ some row)
        × (active_lease row lease now ≡ true)
        × Updates
            (held_by lease)
            (failed_row (Control.can_retry retryable row.command now) code now)
            db
            db'
        × (Option.map (λ r. r.command) (select (has_command lease.command_id) db'.commands)
            ≡ some failed)
  unfolding Control.fail_tx Control.required_row Control.update_held Control.update_commands
      Control.finish_attempt
  fail_ok lease code retryable now e =
      elim (Option-cases (select (has_command lease.command_id) db.commands)) [
        | inl missing ↦ absurd (ground arith)
        | inr (row, found) ↦ (row, found, ground arith, ground arith, ground arith)
      ]

-- A claim that took the lease.
pub record Taken (row : CommandRow) (owner : String) (expires_at now : ℕ) (db db' : Database)
    (r : Result Lease) : Type 0 where
  pub attempts_left : row.command.attempt < row.command.max_attempts
  pub in_time : now < row.command.deadline_at
  pub lease_over :
      is_running row ≡ true → (expiry : ℕ) × (row.lease_expires_at ≡ some expiry) × (expiry ≤ now)
  pub waits : is_running row ≡ false → Control.claimable row.command.status ≡ true
  pub written : Updates (still_is row) (leased row owner expires_at now) db db'
  pub one : matching (still_is row) db.commands ≡ 1
  pub lease :
      r
      ≡ ok (record {
        command_id = row.command.command_id;
        owner = owner;
        epoch = row.lease_epoch + 1;
        expires_at = expires_at;
      })

-- A claim that ended the command.
abbrev pub Ended : CommandRow → ℕ → Database → Database → Result Lease → Type 0
Ended row now db db' r =
    ((row.command.max_attempts ≤ row.command.attempt)
      × (r ≡ err attempts_exhausted)
      × (db' ≡ Control.end_exhausted row now db))
    ⊎ ((row.command.attempt < row.command.max_attempts)
        × (row.command.deadline_at ≤ now)
        × (r ≡ err deadline_exceeded)
        × (db'
            ≡ Control.update_commands (has_command row.command.command_id)
                (ended "DEADLINE_EXCEEDED" now) db))

close_expired_ok :
    (db db' : Database) (row : CommandRow) (now : ℕ) {u : Unit {0}}
    → Control.close_expired row now db ≡ ok (u, db')
    → (expiry : ℕ) × (row.lease_expires_at ≡ some expiry)
      × (expiry ≤ now)
      × (db'.commands ≡ db.commands)
      × (db'.stage_results ≡ db.stage_results)
unfolding Control.close_expired Control.finish_attempt
close_expired_ok db db' row now e = elim (Option-cases row.lease_expires_at) [
  | inl missing ↦ absurd (ground arith)
  | inr (expiry, at) ↦ (expiry, at, ground arith, ground arith, ground arith)
]

guard_ok :
    (b : Bool) (db db' : Database) {u : Unit {0}}
    → guard b command_state db ≡ ok (u, db')
    → (b ≡ true) × (db' ≡ db)
guard_ok true db db' e = ground arith
guard_ok false db db' e = absurd (ground arith)

claim_running_ok :
    (db db' : Database) (row : CommandRow) (owner : String) (expires_at now : ℕ) {r : Result Lease}
    → row.command.attempt < row.command.max_attempts
    → now < row.command.deadline_at
    → is_running row ≡ true
    → Control.claim_running row owner expires_at now db ≡ ok (r, db')
    → Taken row owner expires_at now db db' r
unfolding Control.claim_running
claim_running_ok db db' row owner expires_at now {r} left time running e =
    let (u, s, closed, rest) =
      bind_ok (Control.close_expired row now)
        (λ _. Control.take_lease row owner expires_at now >>= λ lease. pure (ok lease)) db db' r
        e in
    let (lease, t, taken, last) =
      bind_ok (Control.take_lease row owner expires_at now) (λ lease. pure (ok lease)) s db' r
        rest in
    let (expiry, at, over, same_commands, same_stages) = close_expired_ok db s row now closed in
    let (written, one, leased_as) = take_lease_ok s t row owner expires_at now taken in
    let same_state : t ≡ db' = ground arith in
    record {
      attempts_left = left;
      in_time = time;
      lease_over = λ _. (expiry, at, over);
      waits = λ idle. absurd (ground (arith, running, idle));
      written = record {
        commands =
            sym (ap (λ (d : Database). d.commands) same_state)
            ∙ written.commands
            ∙ rw same_commands;
        stages =
            sym (ap (λ (d : Database). d.stage_results) same_state) ∙ written.stages ∙ same_stages;
      };
      one = rw (← same_commands) one;
      lease = ground arith;
    }

claim_waiting_ok :
    (db db' : Database) (row : CommandRow) (owner : String) (expires_at now : ℕ) {r : Result Lease}
    → row.command.attempt < row.command.max_attempts
    → now < row.command.deadline_at
    → is_running row ≡ false
    → Control.claim_waiting row owner expires_at now db ≡ ok (r, db')
    → (Control.claimable row.command.status ≡ true) × Taken row owner expires_at now db db' r
unfolding Control.claim_waiting
claim_waiting_ok db db' row owner expires_at now {r} left time waits e =
    let (u, s, allowed, rest) =
      bind_ok (guard (Control.claimable row.command.status) command_state)
        (λ _. Control.take_lease row owner expires_at now >>= λ lease. pure (ok lease)) db db' r
        e in
    let (lease, t, taken, last) =
      bind_ok (Control.take_lease row owner expires_at now) (λ lease. pure (ok lease)) s db' r
        rest in
    let (fits, same_start) = guard_ok (Control.claimable row.command.status) db s allowed in
    let (written, one, leased_as) = take_lease_ok s t row owner expires_at now taken in
    let same_state : t ≡ db' = ground arith in
    (
      fits,
      record {
        attempts_left = left;
        in_time = time;
        lease_over = λ runs. absurd (ground arith);
        waits = λ _. fits;
        written = record {
          commands =
              sym (ap (λ (d : Database). d.commands) same_state) ∙ written.commands ∙ rw same_start;
          stages =
              sym (ap (λ (d : Database). d.stage_results) same_state)
              ∙ written.stages
              ∙ rw same_start;
        };
        one = rw (← same_start) one;
        lease = ground arith;
      },
    )

claim_row_ok :
    (db db' : Database) (row : CommandRow) (owner : String) (expires_at now : ℕ) {r : Result Lease}
    → Control.claim_row row owner expires_at now db ≡ ok (r, db')
    → Ended row now db db' r ⊎ Taken row owner expires_at now db db' r
unfolding Control.claim_row Control.claim_ended
claim_row_ok db db' row owner expires_at now {r} e =
    elim (Bool-cases (leb row.command.max_attempts row.command.attempt)) [
      | inl exhausted ↦ inl (inl (ground arith))
      | inr left ↦ elim (Bool-cases (leb row.command.deadline_at now)) [
        | inl late ↦ inl (inr (ground arith))
        | inr time ↦ elim (Bool-cases (is_running row)) [
          | inl runs ↦ inr (
              claim_running_ok db db' row owner expires_at now (ground arith) (ground arith) runs
                (ground arith))
          | inr waits ↦
              inr
                (claim_waiting_ok db db' row owner expires_at now (ground arith) (ground arith)
                  waits (ground arith)).1
        ]
      ]
    ]

-- A claim that committed: the command was ended, or its lease was taken.
pub claim_ok :
    (db db' : Database) (id owner : String) (lease_seconds now : ℕ) {r : Result Lease}
    → Control.claim_tx id owner lease_seconds now db ≡ ok (r, db')
    → (row : CommandRow) × (select (has_command id) db.commands ≡ some row)
      × (Ended row now db db' r ⊎ Taken row owner (now + lease_seconds * second) now db db' r)
unfolding Control.claim_tx Control.required_row
claim_ok db db' id owner lease_seconds now {r} e =
    elim (Option-cases (select (has_command id) db.commands)) [
      | inl missing ↦ absurd (ground arith)
      | inr (row, found) ↦ (
        row,
        found,
        claim_row_ok db db' row owner (now + lease_seconds * second) now (ground arith),
      )
    ]
