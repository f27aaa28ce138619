-- ===== src/Control/Submission.antt =====
-- `SQLiteCommandStore.submit` of a command whose idempotency key is known.
use lineage_collection.Prelude.{
  ℕ, String, ◌≡◌, refl, sym, ap, ◌∙◌, inl, inr, true, some, List, ◌==◌, arith, eq_refl, select,
  select-append,
}
use lineage_collection.Models.{Command, StageIdentity}
use lineage_collection.Database.{Database, CommandRow}
use lineage_collection.Database.Transaction.{ok, committed}
use lineage_collection.Control
use lineage_collection.Control.{has_key, same_submission, new_command}
use lineage_collection.Control.Cases.{submit_ok}
use lineage_collection.Control.History.{Call, run}
use lineage_collection.Control.Evolution.{Evolves, Evolves-refl, ReachesBy, run-ReachesBy}

pub same_submission_refl : (c : Command) → same_submission c c ≡ true
unfolding same_submission
same_submission_refl c = ground (
  arith,
  eq_refl c.workflow_version,
  eq_refl c.scope,
  eq_refl c.artifact_digest,
  eq_refl c.determinant_digest,
  eq_refl c.input_ref,
)

-- A later version of a row has the immutable identity of the row.
same_submission-Evolves :
    (old new : CommandRow) (c : Command)
    → Evolves old new
    → same_submission old.command c ≡ true
    → same_submission new.command c ≡ true
unfolding same_submission
same_submission-Evolves old new c e same = ground arith

submit_found_again :
    (c : Command) (later : ℕ) (db db₀ db₁ : Database) (r : CommandRow) {stored : Command}
    → Control.submit_tx c later db₀ ≡ ok (stored, db₁)
    → select (has_key c.idempotency_key) db.commands ≡ some r
    → same_submission r.command c ≡ true
    → (now : ℕ) → Control.submit c now db ≡ (ok r.command, db)
unfolding Control.submit Control.submit_tx Control.submit_found
submit_found_again c later db db₀ db₁ r e found same now = ground arith

submitted-ReachesBy :
    (c : Command) (now : ℕ) (db db' : Database) (stored : Command)
    → Control.submit_tx c now db ≡ ok (stored, db')
    → (row : CommandRow) × (row.command ≡ stored)
      × (same_submission row.command c ≡ true)
      × ReachesBy (has_key c.idempotency_key) row db'.commands
submitted-ReachesBy c now db db' stored e = elim (submit_ok db db' c now e) [
  | inl (row, found, same, is, unchanged) ↦
      (row, sym is, same, (row, rw unchanged found, Evolves-refl row))
  | inr (fresh, _, _, _, _, is, written) ↦ (
    new_command c now,
    unfold new_command in sym is,
    unfold new_command in same_submission_refl c,
    (
      new_command c now,
      rw written (
          unfold new_command in
          ground (
            arith,
            eq_refl c.idempotency_key,
            select-append (has_key c.idempotency_key) db.commands (new_command c now) fresh,
          )),
      Evolves-refl (new_command c now),
    ),
  )
]

-- After a submission and any further calls, submitting the command again changes nothing, and returns
-- the command of the row that stands under its idempotency key: its identity, its idempotency key and its immutable part are those of the first.
pub submit_once :
    (key_of : StageIdentity → String) (c stored : Command) (now later : ℕ) (db db' : Database)
    (cs : List Call)
    → Control.submit c now db ≡ (ok stored, db')
    → (current : Command) × (Control.submit c later (run key_of db' cs)
        ≡ (ok current, run key_of db' cs))
      × ((row : CommandRow) × (select (has_key c.idempotency_key) (run key_of db' cs).commands
            ≡ some row)
          × (row.command ≡ current))
      × (current.command_id ≡ stored.command_id)
      × (current.idempotency_key ≡ stored.idempotency_key)
      × (same_submission current c ≡ true)
unfolding Control.submit
submit_once key_of c stored now later db db' cs e =
    let done = committed (Control.submit_tx c now) db stored db' e in
    let (row, is, same, reached) = submitted-ReachesBy c now db db' stored done in
    let (r, found, evolved) =
      run-ReachesBy (has_key c.idempotency_key)
        (λ a b (x : Evolves a b). ap (λ i. i == c.idempotency_key) x.idempotency_key) row key_of db'
        cs reached in
    let same_now = same_submission-Evolves row r c evolved same in
    (
      r.command,
      submit_found_again c now (run key_of db' cs) db db' r done found same_now later,
      (r, found, refl),
      evolved.command_id ∙ ap (λ (x : Command). x.command_id) is,
      evolved.idempotency_key ∙ ap (λ (x : Command). x.idempotency_key) is,
      same_now,
    )
