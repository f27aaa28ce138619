-- ===== src/Control/Holds.antt =====
-- Claims of SQLiteCommandStore: the lease that a claim returns, and other claims of its command.
use lineage_collection.Prelude.{
  ℕ, ◌+◌, ◌*◌, ◌<◌, String, ◌≡◌, ap, ◌∙◌, inl, inr, true, Option, some, arith, eq_iff, eq_refl,
  update, select, select-Has, select-update, set_if,
}
use lineage_collection.Clock.{second}
use lineage_collection.Models.{Lease}
use lineage_collection.Database.{Database, CommandRow}
use lineage_collection.Database.Transaction.{Result, ok, err, settle}
use lineage_collection.Control
use lineage_collection.Control.{has_command, is_running, active_lease, leased, still_is, ended}
use lineage_collection.Control.Cases.{claim_ok}

-- A claim that returned a lease has committed.
pub claimed_tx :
    (id owner : String) (lease_seconds now : ℕ) (db db' : Database) (lease : Lease)
    → Control.claim id owner lease_seconds now db ≡ (ok lease, db')
    → Control.claim_tx id owner lease_seconds now db ≡ ok (ok lease, db')
unfolding Control.claim
claimed_tx id owner lease_seconds now db db' lease e =
    by_result (Control.claim_tx id owner lease_seconds now db) e
  where
    by_result :
        (x : Result (Result Lease × Database))
        → Control.deferred (settle db x) ≡ (ok lease, db')
        → x ≡ ok (ok lease, db')
    by_result (ok (ok l, s)) h = ground arith
    by_result (ok (err c, s)) h = absurd (ground arith)
    by_result (err c) h = absurd (ground arith)

pub same_row : (o : Option CommandRow) (a b : CommandRow) → o ≡ some a → o ≡ some b → a ≡ b
same_row o a b ea eb = cc (ea, eb)

still_is_self : (row : CommandRow) → still_is row row ≡ true
unfolding still_is
still_is_self row = ground (arith, eq_refl row.command.command_id)

-- What a claim has left in the table: the row that was found, under the new lease.
pub record Holds (owner : String) (expires_at now : ℕ) (id : String) (db db' : Database)
    (lease : Lease) : Type 0 where
  pub row : CommandRow
  pub found : select (has_command id) db.commands ≡ some row
  pub held : select (has_command id) db'.commands ≡ some (leased row owner expires_at now row)
  pub named : row.command.command_id ≡ id
  pub lease_is : lease ≡ record {
    command_id = row.command.command_id;
    owner = owner;
    epoch = row.lease_epoch + 1;
    expires_at = expires_at;
  }
  pub attempts_left : row.command.attempt < row.command.max_attempts

pub claim-Holds :
    (id owner : String) (lease_seconds now : ℕ) (db db' : Database) (lease : Lease)
    → Control.claim id owner lease_seconds now db ≡ (ok lease, db')
    → Holds owner (now + lease_seconds * second) now id db db' lease
claim-Holds id owner lease_seconds now db db' lease e =
    let (row, found, outcome) =
      claim_ok db db' id owner lease_seconds now
        (claimed_tx id owner lease_seconds now db db' lease e) in
    let (stands, is_id) = select-Has (has_command id) db.commands found in
    elim outcome [
      | inl (inl (_, no_lease, _)) ↦ absurd (cc)
      | inl (inr (_, _, no_lease, _)) ↦ absurd (cc)
      | inr t ↦ record {
        row = row;
        found = found;
        held =
            ap (select (has_command id)) t.written.commands
            ∙ kept row found
            ∙ ap some (rw (still_is_self row));
        named = (eq_iff row.command.command_id id).0 is_id;
        lease_is = cc (t.lease);
        attempts_left = t.attempts_left;
      }
    ]
  where
    kept :
        (row : CommandRow)
        → select (has_command id) db.commands ≡ some row
        → select (has_command id) (
            update (still_is row) (leased row owner (now + lease_seconds * second) now) db.commands)
          ≡ some (set_if (still_is row) (leased row owner (now + lease_seconds * second) now) row)
    kept row found =
        select-update (has_command id) (still_is row)
          (leased row owner (now + lease_seconds * second) now) db.commands
          (λ r. unfold leased in ground arith)
        ∙ rw found
