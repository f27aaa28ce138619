-- ===== src/Review/Verdicts.antt =====
-- A decided version of a proposal through later calls of ReviewService (services/review.py).
use mathlib.Core.Option
use lineage_collection.Prelude.{
  ℕ, String, true, false, ◌≡◌, ◌≢◌, ◌⊎◌, refl, sym, ap, ◌∙◌, inl, inr, some, List, [], ◌∷◌, eqb,
  select, update, set_if, select-update, select-append_some, select-Has, arith, Bool-cases,
}
use lineage_collection.Database.Transaction.{
  Error, Result, ok, err, transaction, settle, concurrent_decision, invalid_transition,
}
use lineage_collection.Domain.Proposals.{
  ProposalState, in_review, approved, rejected, superseded, finalized, may_move,
  allowed_transitions,
}
use lineage_collection.Publication.Tables.{Edge}
use lineage_collection.Review.{
  Proposal, ProposalRow, ReviewTables, ReviewDecision, version_of, row_of, locked_at, overwritten,
  locked_proposal,
}
use lineage_collection.Review.Decisions.{
  Setup, Verdict, approve, reject, state_of, decide, decide_tx, record_decision, record_correction,
  store_approval, approval_of, correct, correct_tx, stored,
}
use lineage_collection.Review.Effects.{
  Moves, Write, keeps, creates, writes, corrects, decide_tx-Write, store_approval-same,
}
use lineage_collection.Review.History.{Call, run, run-keeps}

-- The version is there, and no longer in review.
abbrev IsDecided : String → ℕ → List ProposalRow → Type 0
IsDecided id version rows =
    (r : ProposalRow) × (select (version_of id version) rows ≡ some r)
    × (r.payload.state ≢ in_review)

never_reopened : (s : ProposalState) → may_move s in_review ≡ false
unfolding may_move allowed_transitions
never_reopened in_review = refl
never_reopened approved = refl
never_reopened rejected = refl
never_reopened superseded = refl
never_reopened finalized = refl

no_verdict : (s : ProposalState) (v : Verdict) → s ≢ in_review → may_move s (state_of v) ≡ false
unfolding may_move allowed_transitions
no_verdict in_review v h = absurd (h refl)
no_verdict approved approve h = refl
no_verdict approved reject h = refl
no_verdict rejected v h = refl
no_verdict superseded v h = refl
no_verdict finalized v h = refl

no_correction : (s : ProposalState) → s ≢ in_review → may_move s superseded ≡ false
unfolding may_move allowed_transitions
no_correction in_review h = absurd (h refl)
no_correction approved h = refl
no_correction rejected h = refl
no_correction superseded h = refl
no_correction finalized h = refl

moved_on : (s : ProposalState) (q : ProposalState) → may_move s q ≡ true → q ≢ in_review
moved_on s q h e =
    let stuck : may_move s q ≡ false = ap (may_move s) e ∙ never_reopened s in
    ground (arith, h, stuck)

update-IsDecided :
    (id : String) (version : ℕ) (i : String) (v lock : ℕ) (q : Proposal) (rows : List ProposalRow)
    → Moves rows i v lock q
    → IsDecided id version rows
    → IsDecided id version (update (locked_at i v lock) (overwritten q) rows)
update-IsDecided id version i v lock q rows m (r, found, is) = (
  set_if (locked_at i v lock) (overwritten q) r,
  select-update (version_of id version) (locked_at i v lock) (overwritten q) rows kept
      ∙ ap (Option.map (set_if (locked_at i v lock) (overwritten q))) found,
  still (Bool-cases (locked_at i v lock r)),
)
  where
    kept :
        (x : ProposalRow)
        → version_of id version (set_if (locked_at i v lock) (overwritten q) x)
          ≡ version_of id version x
    kept x = elim (Bool-cases (locked_at i v lock x)) [
      | inl hit ↦ rw hit refl
      | inr miss ↦ rw miss refl
    ]

    still :
        (locked_at i v lock r ≡ true) ⊎ (locked_at i v lock r ≡ false)
        → (set_if (locked_at i v lock) (overwritten q) r).payload.state ≢ in_review
    still (inl hit) = rw hit (moved_on m.row.payload.state q.state m.moves)
    still (inr miss) = rw miss is

Write-IsDecided :
    (id : String) (version : ℕ) (rows rows' : List ProposalRow)
    → Write rows rows'
    → IsDecided id version rows
    → IsDecided id version rows'
Write-IsDecided id version rows rows' (keeps e) d = rw e d
Write-IsDecided id version rows rows' (creates p one is fresh e) (r, found, state) =
    rw e (r, select-append_some (version_of id version) rows (row_of p ∷ []) r found, state)
Write-IsDecided id version rows rows' (writes i v lock q m e) d =
    rw e (update-IsDecided id version i v lock q rows m d)
Write-IsDecided id version rows rows' (corrects i v lock q s m at is si sv ss fresh e) d =
    let (r, found, state) = update-IsDecided id version i v lock q rows m d in
    rw e (
      r,
      select-append_some (version_of id version) (update (locked_at i v lock) (overwritten q) rows)
          (row_of s ∷ []) r found,
      state,
    )

module _ (setup : Setup) (id : String) (version : ℕ) (actor rationale : String) (lock now : ℕ)
    (t : ReviewTables) where
  decide_tx_refused :
      (v : Verdict)
      → IsDecided id version t.proposals
      → (e : Error) × (decide_tx setup v id version actor rationale lock now t ≡ err e)
  unfolding decide_tx locked_proposal record_decision
  decide_tx_refused v (r, found, is) =
      let refused = no_verdict r.payload.state v is in
      elim (Bool-cases (eqb r.lock_version lock)) [
        | inl same ↦ (invalid_transition, ground (arith, found, same, refused))
        | inr other ↦ (concurrent_decision, ground (arith, found, other))
      ]

  correct_tx_refused :
      (edges : List Edge)
      → IsDecided id version t.proposals
      → (e : Error) × (correct_tx setup id version edges actor rationale lock now t ≡ err e)
  unfolding correct_tx locked_proposal record_correction
  correct_tx_refused edges (r, found, is) =
      let refused = no_correction r.payload.state is in
      elim (Bool-cases (eqb r.lock_version lock)) [
        | inl same ↦ (invalid_transition, ground (arith, found, same, refused))
        | inr other ↦ (concurrent_decision, ground (arith, found, other))
      ]

  decide_refused :
      (v : Verdict)
      → IsDecided id version t.proposals
      → (e : Error) × (decide setup v id version actor rationale lock now t ≡ (err e, t))
  unfolding decide store_approval
  decide_refused v d =
      let (e, refused) = decide_tx_refused v d in
      (
        e,
        ap
            (λ x.
              store_approval setup (approval_of setup v id version actor rationale now)
                (settle t x))
            refused,
      )

  correct_refused :
      (edges : List Edge)
      → IsDecided id version t.proposals
      → (e : Error) × (correct setup id version edges actor rationale lock now t ≡ (err e, t))
  unfolding correct stored
  correct_refused edges d =
      let (e, refused) = correct_tx_refused edges d in
      (e, ap (λ x. stored setup (settle t x)) refused)

-- The row that was moved is found with what was written into it.
moved_found :
    (id : String) (version lock : ℕ) (q : Proposal) (rows : List ProposalRow)
    (m : Moves rows id version lock q)
    → m.row.lock_version ≡ lock
    → select (version_of id version) (update (locked_at id version lock) (overwritten q) rows)
      ≡ some (overwritten q m.row)
moved_found id version lock q rows m at =
    let hit : locked_at id version lock m.row ≡ true =
      ground (arith, (select-Has (version_of id version) rows m.found).1, at) in
    select-update (version_of id version) (locked_at id version lock) (overwritten q) rows kept
    ∙ ap (Option.map (set_if (locked_at id version lock) (overwritten q))) m.found
    ∙ (rw hit refl)
  where
    kept :
        (x : ProposalRow)
        → version_of id version (set_if (locked_at id version lock) (overwritten q) x)
          ≡ version_of id version x
    kept x = elim (Bool-cases (locked_at id version lock x)) [
      | inl hit ↦ rw hit refl
      | inr miss ↦ rw miss refl
    ]

decide-IsDecided :
    (setup : Setup) (v : Verdict) (id : String) (version : ℕ) (actor rationale : String)
    (lock now : ℕ) (t t1 : ReviewTables) (d : ReviewDecision)
    → decide setup v id version actor rationale lock now t ≡ (ok d, t1)
    → IsDecided id version t1.proposals
unfolding decide
decide-IsDecided setup v id version actor rationale lock now t t1 d e =
    by_result (decide_tx setup v id version actor rationale lock now t) refl
  where
    by_result :
        (x : Result (Proposal × ReviewTables))
        → decide_tx setup v id version actor rationale lock now t ≡ x
        → IsDecided id version t1.proposals
    by_result (err x) h = absurd (unfold store_approval in ground (arith, h, e))
    by_result (ok (p, u)) h =
        let (q, m, at, state, rows) =
          decide_tx-Write setup v id version actor rationale lock now t u p h in
        let after : t1.proposals ≡ u.proposals =
          ap (λ (x : Result ReviewDecision × ReviewTables). x.1.proposals) (sym e)
          ∙ (store_approval-same setup (approval_of setup v id version actor rationale now)
              (transaction (decide_tx setup v id version actor rationale lock now) t))
          ∙ ap (λ (x : Result (Proposal × ReviewTables)). (settle t x).1.proposals) h in
        (
          overwritten q m.row,
          ap (select (version_of id version)) (after ∙ rows)
              ∙ moved_found id version lock q t.proposals m at,
          moved_on m.row.payload.state q.state m.moves,
        )

-- After a version of a proposal has been approved or rejected, and any further calls, every approval,
-- rejection and correction of that version raises and changes nothing, whatever lock version it brings.
pub decided_once :
    (setup : Setup) (v v' : Verdict) (id : String) (version : ℕ)
    (actor rationale actor' rationale' : String) (lock now lock' now' : ℕ) (edges : List Edge)
    (t t1 : ReviewTables) (d : ReviewDecision) (cs : List Call)
    → decide setup v id version actor rationale lock now t ≡ (ok d, t1)
    → ((e : Error) × (decide setup v' id version actor' rationale' lock' now' (run setup t1 cs)
          ≡ (err e, run setup t1 cs)))
      × ((e : Error) × (correct setup id version edges actor' rationale' lock' now'
              (run setup t1 cs)
            ≡ (err e, run setup t1 cs)))
decided_once setup v v' id version actor rationale actor' rationale' lock now lock' now' edges t t1
      d cs e =
    let after : IsDecided id version (run setup t1 cs).proposals =
      run-keeps setup (IsDecided id version) (Write-IsDecided id version) t1 cs
        (decide-IsDecided setup v id version actor rationale lock now t t1 d e) in
    (
      decide_refused setup id version actor' rationale' lock' now' (run setup t1 cs) v' after,
      correct_refused setup id version actor' rationale' lock' now' (run setup t1 cs) edges after,
    )
