-- ===== src/Control/Leases.antt =====
-- Leases of SQLiteCommandStore that another worker has taken over.
use mathlib.Core.Path.{subst}
use lineage_collection.Prelude.{
  ℕ, ◌+◌, ◌*◌, ◌≤◌, ◌<◌, String, ◌≡◌, refl, sym, ap, ◌∙◌, inl, inr, Bool, true, false, some, List,
  arith, select,
}
use lineage_collection.Clock.{second}
use lineage_collection.Models.{Lease, StageIdentity, StageResult}
use lineage_collection.Database.{Database, CommandRow}
use lineage_collection.Database.Transaction.{ok, transaction-keeps}
use lineage_collection.Control
use lineage_collection.Control.{has_command, is_running, active_lease, leased, still_is, ended}
use lineage_collection.Control.Stages.{complete, complete_tx}
use lineage_collection.Control.Cases.{renew_ok, fail_ok}
use lineage_collection.Control.StageCases.{complete_ok}
use lineage_collection.Control.History.{Call, run}
use lineage_collection.Control.Evolution.{Reaches, Evolves, Evolves-refl, run-Reaches}
use lineage_collection.Control.Holds.{same_row, Holds, claim-Holds}

-- A lease of an older epoch than its command's row is not active.
older_lease :
    (lease : Lease) (row : CommandRow) (now : ℕ)
    → lease.epoch < row.lease_epoch
    → active_lease row lease now ≡ false
unfolding active_lease
older_lease lease row now older = ground arith

module _ (key_of : StageIdentity → String) (lease : Lease) (now : ℕ) (db : Database)
    (row : CommandRow) (found : select (has_command lease.command_id) db.commands ≡ some row)
    (older : lease.epoch < row.lease_epoch) where
  inactive :
      (r : CommandRow)
      → select (has_command lease.command_id) db.commands ≡ some r
      → active_lease r lease now ≡ true
      → ⊥
  inactive r e active = cc (older_lease lease row now older, active, same_row _ r row e found)

  renew_old : (lease_seconds : ℕ) → (Control.renew lease lease_seconds now db).1 ≡ db
  unfolding Control.renew
  renew_old lease_seconds =
      transaction-keeps (λ s. s ≡ db) (Control.renew_tx lease lease_seconds now) db refl
        λ l s e.
          let (r, er, active, _, _) = renew_ok db s lease lease_seconds now e in
          absurd (inactive r er active)

  fail_old : (code : String) (retryable : Bool) → (Control.fail lease code retryable now db).1 ≡ db
  unfolding Control.fail
  fail_old code retryable =
      transaction-keeps (λ s. s ≡ db) (Control.fail_tx lease code retryable now) db refl
        λ c s e.
          let (r, er, active, _, _) = fail_ok db s lease code retryable now e in
          absurd (inactive r er active)

  complete_old : (result : StageResult) → (complete key_of lease result now db).1 ≡ db
  unfolding complete
  complete_old result =
      transaction-keeps (λ s. s ≡ db) (complete_tx key_of lease result now) db refl
        λ c s e.
          let (r, er, _, _, outcome) = complete_ok key_of db s lease result now e in
          elim outcome [ inl (_, _, same) ↦ same | inr f ↦ absurd (inactive r er f.active) ]

leased_epoch :
    (row : CommandRow) (owner : String) (expires_at now : ℕ)
    → (leased row owner expires_at now row).lease_epoch ≡ row.lease_epoch + 1
unfolding leased
leased_epoch row owner expires_at now = refl

older_than :
    (e₁ : ℕ) {old_epoch new_epoch e : ℕ} {r row : CommandRow}
    → r ≡ row
    → e ≡ e₁ + 1
    → e ≤ r.lease_epoch
    → old_epoch ≡ e₁ + 1
    → new_epoch ≡ row.lease_epoch + 1
    → old_epoch < new_epoch
older_than e₁ same a le b c = ground arith

overtaken :
    (e₂ : ℕ) {old_epoch new_epoch e last : ℕ}
    → e ≡ e₂ + 1
    → e ≤ last
    → old_epoch < new_epoch
    → new_epoch ≡ e₂ + 1
    → old_epoch < last
overtaken e₂ a le older b = omega (arith, a, le, older, b)

module _ (key_of : StageIdentity → String) (id owner other : String)
    (lease_seconds other_seconds now later : ℕ) (db db₁ db₂ : Database) (cs : List Call)
    (old new : Lease) where
  -- When a command is claimed again, after any calls, its epoch is greater; and from then on, after
  -- any further calls, the older lease renews, fails and completes nothing: the state stays as it is.
  pub takeover_fences :
      Control.claim id owner lease_seconds now db ≡ (ok old, db₁)
      → Control.claim id other other_seconds later (run key_of db₁ cs) ≡ (ok new, db₂)
      → (old.epoch < new.epoch)
        × ((more : List Call) (at : ℕ)
            → let s = run key_of db₂ more in
              ((seconds : ℕ) → (Control.renew old seconds at s).1 ≡ s)
              × ((code : String) (retryable : Bool) → (Control.fail old code retryable at s).1 ≡ s)
              × ((result : StageResult) → (complete key_of old result at s).1 ≡ s))
  takeover_fences first taken_over = (
    newer,
    λ more at.
        let (r, found, ev) = later_row more in
        let here =
          subst (λ i. select (has_command i) (run key_of db₂ more).commands ≡ some r) (sym of_id)
            found in
        let older = later_epoch r ev in
        (
          renew_old key_of old at (run key_of db₂ more) r here older,
          fail_old key_of old at (run key_of db₂ more) r here older,
          complete_old key_of old at (run key_of db₂ more) r here older,
        ),
  )
    where
      h₁ : Holds owner (now + lease_seconds * second) now id db db₁ old
      h₁ = claim-Holds id owner lease_seconds now db db₁ old first

      h₂ : Holds other (later + other_seconds * second) later id (run key_of db₁ cs) db₂ new
      h₂ = claim-Holds id other other_seconds later (run key_of db₁ cs) db₂ new taken_over

      row₁ : CommandRow
      row₁ = leased h₁.row owner (now + lease_seconds * second) now h₁.row

      row₂ : CommandRow
      row₂ = leased h₂.row other (later + other_seconds * second) later h₂.row

      of_id : old.command_id ≡ id
      of_id = ap (λ (l : Lease). l.command_id) h₁.lease_is ∙ h₁.named

      epoch₁ : old.epoch ≡ h₁.row.lease_epoch + 1
      epoch₁ = ap (λ (l : Lease). l.epoch) h₁.lease_is

      epoch₂ : new.epoch ≡ h₂.row.lease_epoch + 1
      epoch₂ = ap (λ (l : Lease). l.epoch) h₂.lease_is

      newer : old.epoch < new.epoch
      newer =
          let (r, found, ev) =
            run-Reaches id row₁ key_of db₁ cs (row₁, h₁.held, Evolves-refl row₁) in
          older_than h₁.row.lease_epoch (same_row _ r h₂.row found h₂.found)
            (leased_epoch h₁.row owner (now + lease_seconds * second) now) ev.epoch epoch₁ epoch₂

      later_row : (more : List Call) → Reaches id row₂ (run key_of db₂ more).commands
      later_row more = run-Reaches id row₂ key_of db₂ more (row₂, h₂.held, Evolves-refl row₂)

      later_epoch : (r : CommandRow) → Evolves row₂ r → old.epoch < r.lease_epoch
      later_epoch r ev =
          overtaken h₂.row.lease_epoch
            (leased_epoch h₂.row other (later + other_seconds * second) later) ev.epoch newer epoch₂
