-- ===== src/Control/Exclusion.antt =====
-- Claims of a command of SQLiteCommandStore while a lease of it is live.
use lineage_collection.Prelude.{
  ℕ, ◌+◌, ◌*◌, ◌<◌, String, ◌≡◌, ◌≢◌, refl, sym, ap, inl, inr, List, arith,
}
use lineage_collection.Clock.{second}
use lineage_collection.Models.{Lease, StageIdentity}
use lineage_collection.Database.{Database}
use lineage_collection.Database.Transaction.{ok}
use lineage_collection.Control
use lineage_collection.Control.{
  has_command, is_running, leased, still_is, ended, held_by, renewed_row, completed_row, failed_row,
  new_command,
}
use lineage_collection.Control.Cases.{claim_ok}
use lineage_collection.Control.History.{Call, run}
use lineage_collection.Control.Holds.{same_row, Holds, claim-Holds, claimed_tx}
use lineage_collection.Control.Respect.{AllRespect, IsTaken, live_excludes, run-Stays}

first-IsTaken :
    (id owner : String) (expires_at now : ℕ) (db db' : Database) (lease : Lease)
    → (h : Holds owner expires_at now id db db' lease)
    → IsTaken id lease.epoch lease.expires_at (leased h.row owner expires_at now h.row)
unfolding leased
first-IsTaken id owner expires_at now db db' lease h =
    let ends : lease.expires_at ≡ expires_at = ap (λ (l : Lease). l.expires_at) h.lease_is in
    (
      sym (ap (λ (l : Lease). l.epoch) h.lease_is),
      inl (refl, (expires_at, refl, omega (arith, ends))),
    )

-- After a claim has returned a lease, and any further calls of which no claim comes at or after its expiry,
-- no renewal under it ends before that, and no completion or failure is under it: no claim of its
-- command before its expiry returns a lease.
pub claim_exclusive :
    (key_of : StageIdentity → String) (id owner other : String)
    (lease_seconds other_seconds now later : ℕ) (db db' : Database) (cs : List Call)
    (lease another : Lease)
    → Control.claim id owner lease_seconds now db ≡ (ok lease, db')
    → AllRespect id lease.epoch lease.expires_at cs
    → later < lease.expires_at
    → (Control.claim id other other_seconds later (run key_of db' cs)).0 ≢ ok another
claim_exclusive key_of id owner other lease_seconds other_seconds now later db db' cs lease another
      e respect live again =
    let s = run key_of db' cs in
    let h = claim-Holds id owner lease_seconds now db db' lease e in
    let (r, at, taken) = run-Stays key_of id lease.epoch lease.expires_at db' cs respect (
      leased h.row owner (now + lease_seconds * second) now h.row,
      h.held,
      first-IsTaken id owner (now + lease_seconds * second) now db db' lease h,
    ) in
    let (row, found, outcome) = claim_ok s _ id other other_seconds later (
      claimed_tx id other other_seconds later s (Control.claim id other other_seconds later s).1
        another (λ i. (again i, (Control.claim id other other_seconds later s).1))) in
    elim outcome [
      | inl (inl (_, no_lease, _)) ↦ absurd (cc)
      | inl (inr (_, _, no_lease, _)) ↦ absurd (cc)
      | inr t ↦
          live_excludes id lease.epoch lease.expires_at row r other (later + other_seconds * second)
            later s _ t live (same_row _ r row at found) taken
    ]
