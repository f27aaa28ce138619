-- ===== src/Control/Respect.antt =====
-- Calls of SQLiteCommandStore that leave a lease of a command live, one by one.
use mathlib.Core.Path.{subst}
use mathlib.Core.Option
use lineage_collection.Prelude.{
  ℕ, ◌+◌, ◌*◌, ◌≤◌, ◌<◌, String, Bool, true, false, ◌&&◌, ◌≡◌, ◌⊎◌, refl, sym, ap, ◌∙◌, inl, inr,
  some, List, [], ◌∷◌, ◌==◌, eqb, arith, eq_iff, update, select, select-Has, select-update,
  select-append_some, set_if, Bool-cases,
}
use lineage_collection.Clock.{second}
use lineage_collection.Models.{
  Command, Lease, StageIdentity, StageResult, failed_terminal, same_status,
}
use lineage_collection.Database.{Database, CommandRow}
use lineage_collection.Database.Transaction.{Result, ok, err, settle, transaction-keeps}
use lineage_collection.Control
use lineage_collection.Control.{
  has_command, is_running, leased, still_is, ended, held_by, renewed_row, completed_row, failed_row,
  new_command,
}
use lineage_collection.Control.Stages.{complete, complete_tx, record_stage, record_stage_tx}
use lineage_collection.Control.Cases.{claim_ok, submit_ok, renew_ok, fail_ok, Taken}
use lineage_collection.Control.StageCases.{complete_ok, record_stage_ok}
use lineage_collection.Control.History.{
  Call, submits, claims, renews, completes, fails, records, step, run,
}
use lineage_collection.Control.Holds.{same_row}

-- The lease of the command and the epoch.
abbrev pub is_under : String → ℕ → Lease → Bool
is_under id epoch l = l.command_id == id && eqb l.epoch epoch

-- A call that leaves the lease `epoch` of the command live until `end`: a claim comes before that time, a
-- renewal under the lease does not shorten it, and no worker completes or fails the command under it.
abbrev pub Respects : String → ℕ → ℕ → Call → Type 0
Respects id epoch end (submits c now) = Unit {0}
Respects id epoch end (claims i owner lease_seconds now) = now < end
Respects id epoch end (renews l lease_seconds now) =
    (is_under id epoch l ≡ false) ⊎ (end ≤ now + lease_seconds * second)
Respects id epoch end (completes l r now) = is_under id epoch l ≡ false
Respects id epoch end (fails l code retryable now) = is_under id epoch l ≡ false
Respects id epoch end (records l r now) = Unit {0}

abbrev pub AllRespect : String → ℕ → ℕ → List Call → Type 0
AllRespect id epoch end [] = Unit {0}
AllRespect id epoch end (c ∷ cs) = Respects id epoch end c × AllRespect id epoch end cs

terminal_excludes :
    (row : CommandRow)
    → same_status row.command.status failed_terminal ≡ true
    → (is_running row ≡ false → Control.claimable row.command.status ≡ true)
    → ⊥
unfolding Control.claimable
terminal_excludes row final waits = ground (arith, final, waits)

module _ (id : String) (epoch end : ℕ) where
  -- The command has the lease, live until `end` at least, or it has been ended.
  abbrev pub IsTaken : CommandRow → Type 0
  IsTaken r =
      (r.lease_epoch ≡ epoch)
      × (((is_running r ≡ true) × ((x : ℕ) × (r.lease_expires_at ≡ some x) × (end ≤ x)))
          ⊎ (same_status r.command.status failed_terminal ≡ true))

  abbrev pub Stays : List CommandRow → Type 0
  Stays rows = (r : CommandRow) × (select (has_command id) rows ≡ some r) × IsTaken r

  update-Stays :
      (p : CommandRow → Bool) (f : CommandRow → CommandRow) (rows : List CommandRow)
      → ((r : CommandRow) → (f r).command.command_id ≡ r.command.command_id)
      → ((r : CommandRow)
          → select (has_command id) rows ≡ some r
          → IsTaken r
          → p r ≡ true
          → IsTaken (f r))
      → Stays rows
      → Stays (update p f rows)
  update-Stays p f rows same keeps (r, found, t) = (
    set_if p f r,
    select-update (has_command id) p f rows kept ∙ ap (Option.map (set_if p f)) found,
    elim (Bool-cases (p r)) [ inl hit ↦ rw hit (keeps r found t hit) | inr miss ↦ rw miss t ],
  )
    where
      kept : (x : CommandRow) → has_command id (set_if p f x) ≡ has_command id x
      kept x = elim (Bool-cases (p x)) [
        | inl hit ↦ rw hit (ap (λ i. i == id) (same x))
        | inr miss ↦ rw miss refl
      ]

  of_id :
      (rows : List CommandRow) (r : CommandRow)
      → select (has_command id) rows ≡ some r
      → r.command.command_id ≡ id
  of_id rows r found = (eq_iff r.command.command_id id).0 (select-Has (has_command id) rows found).1

  ended-Stays :
      (i code : String) (now : ℕ) (rows : List CommandRow)
      → Stays rows
      → Stays (update (has_command i) (ended code now) rows)
  ended-Stays i code now rows =
      update-Stays (has_command i) (ended code now) rows (λ r. unfold ended in refl)
        λ r found t hit. unfold ended in (t.0, inr refl)

  -- A statement under the fence of a lease takes the row only if it is this lease.
  held_by-is_under :
      (l : Lease) (rows : List CommandRow) (r : CommandRow)
      → select (has_command id) rows ≡ some r
      → IsTaken r
      → held_by l r ≡ true
      → is_under id epoch l ≡ true
  unfolding held_by
  held_by-is_under l rows r found t hit = ground (
    arith,
    of_id rows r found,
    t.0,
    eq_iff r.command.command_id l.command_id,
    eq_iff l.command_id id,
  )

  pub live_excludes :
      (row r : CommandRow) (owner : String) (expires_at now : ℕ) (db db' : Database)
      {x : Result Lease}
      → Taken row owner expires_at now db db' x
      → now < end
      → r ≡ row
      → IsTaken r
      → ⊥
  live_excludes row r owner expires_at now db db' t early same
        (at_epoch, inl (runs, (expiry, at, le))) =
      let (expiry', at', over) = t.lease_over (ap is_running (sym same) ∙ runs) in
      let one : some expiry ≡ some expiry' =
        sym at ∙ ap (λ (y : CommandRow). y.lease_expires_at) same ∙ at' in
      ground (arith, one, le, over, early)
  live_excludes row r owner expires_at now db db' t early same (at_epoch, inr over) =
      let final : same_status row.command.status failed_terminal ≡ true =
        ap (λ (y : CommandRow). same_status y.command.status failed_terminal) (sym same) ∙ over in
      terminal_excludes row final t.waits

  -- The row that the statement takes is the one that was found.
  found_row :
      (i : String) (rows : List CommandRow) (row r : CommandRow)
      → select (has_command i) rows ≡ some row
      → select (has_command id) rows ≡ some r
      → still_is row r ≡ true
      → r ≡ row
  unfolding still_is
  found_row i rows row r found at hit =
      let named : row.command.command_id ≡ i =
        (eq_iff row.command.command_id i).0 (select-Has (has_command i) rows found).1 in
      let equal : r.command.command_id ≡ row.command.command_id =
        (eq_iff r.command.command_id row.command.command_id).0 (ground (arith, hit)) in
      let ids : i ≡ id = sym named ∙ sym equal ∙ of_id rows r at in
      same_row _ r row at (ap (λ y. select (has_command y) rows) (sym ids) ∙ found)

  claim_tx-Stays :
      (i owner : String) (lease_seconds now : ℕ) (db db' : Database) (x : Result Lease)
      → now < end
      → Control.claim_tx i owner lease_seconds now db ≡ ok (x, db')
      → Stays db.commands
      → Stays db'.commands
  unfolding Control.end_exhausted Control.update_commands
  claim_tx-Stays i owner lease_seconds now db db' x early e h =
      let (row, found, outcome) = claim_ok db db' i owner lease_seconds now e in
      elim outcome [
        | inl (inl (_, _, written)) ↦
            subst (λ (d : Database). Stays d.commands) (sym written)
              (elim (Bool-cases (same_status row.command.status failed_terminal)) [
                | inl already ↦ rw already h
                | inr fresh ↦
                    rw fresh
                      (ended-Stays row.command.command_id "ATTEMPTS_EXHAUSTED" now db.commands h)
              ])
        | inl (inr (_, _, _, written)) ↦
            subst (λ (d : Database). Stays d.commands) (sym written)
              (ended-Stays row.command.command_id "DEADLINE_EXCEEDED" now db.commands h)
        | inr t ↦ subst Stays (sym t.written.commands) (
            update-Stays (still_is row) (leased row owner (now + lease_seconds * second) now)
              db.commands (λ r. unfold leased in refl)
              (λ r at taken hit. absurd (
                live_excludes row r owner (now + lease_seconds * second) now db db' t early
                  (found_row i db.commands row r found at hit) taken))
              h)
      ]

  submit-Stays :
      (c : Command) (now : ℕ) (db : Database)
      → Stays db.commands
      → Stays (Control.submit c now db).1.commands
  unfolding Control.submit
  submit-Stays c now db h =
      transaction-keeps (λ (d : Database). Stays d.commands) (Control.submit_tx c now) db h
        λ stored db' e. elim (submit_ok db db' c now e) [
          | inl (row, _, _, _, same) ↦ subst (λ (d : Database). Stays d.commands) (sym same) h
          | inr (_, _, _, _, _, _, added) ↦
              subst (λ (d : Database). Stays d.commands) (sym added)
                (
                  h.0,
                  select-append_some (has_command id) db.commands (new_command c now ∷ []) h.0 h.1,
                  h.2,
                )
        ]

  renew-Stays :
      (l : Lease) (lease_seconds now : ℕ) (db : Database)
      → (is_under id epoch l ≡ false) ⊎ (end ≤ now + lease_seconds * second)
      → Stays db.commands
      → Stays (Control.renew l lease_seconds now db).1.commands
  unfolding Control.renew
  renew-Stays l lease_seconds now db allowed h =
      transaction-keeps (λ (d : Database). Stays d.commands) (Control.renew_tx l lease_seconds now)
        db h
        λ x db' e.
          let (row, _, _, w, _) = renew_ok db db' l lease_seconds now e in
          subst Stays (sym w.commands) (
            update-Stays (held_by l) (renewed_row (now + lease_seconds * second) now) db.commands
              (λ r. unfold renewed_row in refl)
              (λ r at t hit. elim allowed [
                | inl other ↦ absurd (cc (held_by-is_under l db.commands r at t hit, other))
                | inr longer ↦
                    unfold renewed_row in
                    (
                      t.0,
                      inl (
                        unfold held_by in ground (arith, hit),
                        (now + lease_seconds * second, refl, longer),
                      ),
                    )
              ])
              h)

  other-Stays :
      (l : Lease) (f : CommandRow → CommandRow) (rows : List CommandRow)
      → ((r : CommandRow) → (f r).command.command_id ≡ r.command.command_id)
      → is_under id epoch l ≡ false
      → Stays rows
      → Stays (update (held_by l) f rows)
  other-Stays l f rows same other =
      update-Stays (held_by l) f rows same
        λ r at t hit. absurd (cc (held_by-is_under l rows r at t hit, other))

  fail-Stays :
      (l : Lease) (code : String) (retryable : Bool) (now : ℕ) (db : Database)
      → is_under id epoch l ≡ false
      → Stays db.commands
      → Stays (Control.fail l code retryable now db).1.commands
  unfolding Control.fail
  fail-Stays l code retryable now db other h =
      transaction-keeps (λ (d : Database). Stays d.commands) (Control.fail_tx l code retryable now)
        db h
        λ x db' e.
          let (row, _, _, w, _) = fail_ok db db' l code retryable now e in
          subst Stays (sym w.commands) (
            other-Stays l (failed_row (Control.can_retry retryable row.command now) code now)
              db.commands (λ r. unfold failed_row in refl) other h)

module _ (key_of : StageIdentity → String) (id : String) (epoch end : ℕ) where
  complete-Stays :
      (l : Lease) (r : StageResult) (now : ℕ) (db : Database)
      → is_under id epoch l ≡ false
      → Stays id epoch end db.commands
      → Stays id epoch end (complete key_of l r now db).1.commands
  unfolding complete
  complete-Stays l r now db other h =
      transaction-keeps (λ (d : Database). Stays id epoch end d.commands)
        (complete_tx key_of l r now) db h
        λ x db' e.
          let (row, _, _, _, outcome) = complete_ok key_of db db' l r now e in
          elim outcome [
            | inl (_, _, same) ↦
                subst (λ (d : Database). Stays id epoch end d.commands) (sym same) h
            | inr f ↦ subst (Stays id epoch end) (sym f.commands) (
                other-Stays id epoch end l (completed_row _ now) db.commands
                  (λ y. unfold completed_row in refl) other h)
          ]

  record_stage-Stays :
      (l : Lease) (r : StageResult) (now : ℕ) (db : Database)
      → Stays id epoch end db.commands
      → Stays id epoch end (record_stage key_of l r now db).1.commands
  unfolding record_stage
  record_stage-Stays l r now db h =
      transaction-keeps (λ (d : Database). Stays id epoch end d.commands)
        (record_stage_tx key_of l r now) db h
        λ x db' e. subst (Stays id epoch end) (sym (record_stage_ok key_of db db' l r now e).0) h

  claim-Stays :
      (i owner : String) (lease_seconds now : ℕ) (db : Database)
      → now < end
      → Stays id epoch end db.commands
      → Stays id epoch end (Control.claim i owner lease_seconds now db).1.commands
  unfolding Control.claim
  claim-Stays i owner lease_seconds now db early h =
      by_result (Control.claim_tx i owner lease_seconds now db) refl
    where
      by_result :
          (x : Result (Result Lease × Database))
          → Control.claim_tx i owner lease_seconds now db ≡ x
          → Stays id epoch end (Control.deferred (settle db x)).1.commands
      by_result (ok (r, db')) e =
          claim_tx-Stays id epoch end i owner lease_seconds now db db' r early e h
      by_result (err x) e = h

  step-Stays :
      (db : Database) (c : Call)
      → Respects id epoch end c
      → Stays id epoch end db.commands
      → Stays id epoch end (step key_of db c).commands
  unfolding step
  step-Stays db (submits c now) ok_c h = submit-Stays id epoch end c now db h
  step-Stays db (claims i owner lease_seconds now) early h =
      claim-Stays i owner lease_seconds now db early h
  step-Stays db (renews l lease_seconds now) allowed h =
      renew-Stays id epoch end l lease_seconds now db allowed h
  step-Stays db (completes l r now) other h = complete-Stays l r now db other h
  step-Stays db (fails l code retryable now) other h =
      fail-Stays id epoch end l code retryable now db other h
  step-Stays db (records l r now) ok_c h = record_stage-Stays l r now db h

  pub run-Stays :
      (db : Database) (cs : List Call)
      → AllRespect id epoch end cs
      → Stays id epoch end db.commands
      → Stays id epoch end (run key_of db cs).commands
  unfolding run
  run-Stays db [] all h = h
  run-Stays db (c ∷ cs) (first, rest) h =
      run-Stays (step key_of db c) cs rest (step-Stays db c first h)
