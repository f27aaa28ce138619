-- ===== src/Review/Effects.antt =====
-- What a call of ReviewService (services/review.py) does to the rows of `proposals`.
use mathlib.Core.Path.{subst}
use lineage_collection.Prelude.{
  ℕ, ◌+◌, String, Bool, true, false, ◌≡◌, refl, sym, ap, ◌∙◌, inl, inr, Option, none, some, List,
  [], ◌∷◌, ◌++◌, any, join, decimal, select, update, arith, Bool-cases, Option-cases,
}
use lineage_collection.Database.Transaction.{
  Result, ok, err, Tx, transaction, transaction-keeps, Result-cases, pure, bind_ok,
}
use lineage_collection.Domain.Proposals.{in_review, superseded, finalized, may_move}
use lineage_collection.Evidence.{EvidenceRef, EvidenceStore, put}
use lineage_collection.Publication.Tables.{Edge}
use lineage_collection.Publication.{sort_by}
use lineage_collection.Review
use lineage_collection.Review.{
  Proposal, ProposalRow, ReviewTables, ApprovalRecord, version_of, row_of, locked_at, overwritten,
  update_proposal, insert_proposal, locked_proposal, find, owner,
}
use lineage_collection.Review.Decisions
use lineage_collection.Review.Decisions.{
  Setup, Verdict, state_of, verdict_text, decided, record_decision, record_correction, decide_tx,
  decide, store_approval, kept, insert_audit, replaced, successor, correct_tx, correct, stored,
  store_proposal, completed, finalize, finalize_found, create, create_tx, create_found,
  create_owned, created, first_version,
}

-- A step of a version: its row, what it held, and what the UPDATE wrote into it.
pub record Moves (rows : List ProposalRow) (id : String) (version lock : ℕ) (q : Proposal)
    : Type 0 where
  pub row : ProposalRow
  pub found : select (version_of id version) rows ≡ some row
  pub moves : may_move row.payload.state q.state ≡ true
  pub lock_version : q.lock_version ≡ row.payload.lock_version + 1

pub data Write (rows rows' : List ProposalRow) : Type 0 where
  keeps : rows' ≡ rows → Write rows rows'
  creates :
      (p : Proposal)
      → p.version ≡ 1
      → p.state ≡ in_review
      → any (version_of p.proposal_id p.version) rows ≡ false
      → rows' ≡ rows ++ row_of p ∷ []
      → Write rows rows'
  writes :
      (id : String) (version lock : ℕ) (q : Proposal)
      → Moves rows id version lock q
      → rows' ≡ update (locked_at id version lock) (overwritten q) rows
      → Write rows rows'
  corrects :
      (id : String) (version lock : ℕ) (q s : Proposal) (m : Moves rows id version lock q)
      → m.row.lock_version ≡ lock
      → q.state ≡ superseded
      → s.proposal_id ≡ id
      → s.version ≡ version + 1
      → s.state ≡ in_review
      → any
          (version_of s.proposal_id s.version)
          (update (locked_at id version lock) (overwritten q) rows)
        ≡ false
      → rows' ≡ update (locked_at id version lock) (overwritten q) rows ++ row_of s ∷ []
      → Write rows rows'

kept-same :
    {A : Type 0} (a : A) (x : Result EvidenceRef × EvidenceStore) (t : ReviewTables)
    → (kept a x t).1.proposals ≡ t.proposals
kept-same a (ok r, evidence) t = refl
kept-same a (err e, evidence) t = refl

pub store_approval-same :
    (setup : Setup) (f : Proposal → ApprovalRecord) (x : Result Proposal × ReviewTables)
    → (store_approval setup f x).1.proposals ≡ x.1.proposals
unfolding store_approval
store_approval-same setup f (err e, t) = refl
store_approval-same setup f (ok p, t) =
    kept-same (Decisions.decision_of setup p (f p))
      (put setup.paths (Decisions.approval_reference setup p (f p)) t.evidence) t

stored-same :
    (setup : Setup) (x : Result Proposal × ReviewTables)
    → (stored setup x).1.proposals ≡ x.1.proposals
unfolding stored store_proposal
stored-same setup (err e, t) = refl
stored-same setup (ok p, t) = kept-same p (put setup.paths _ t.evidence) t

-- The row of a locked proposal.
locked_ok :
    (id : String) (version lock : ℕ) (t t' : ReviewTables) (p : Proposal)
    → locked_proposal id version lock t ≡ ok (p, t')
    → (r : ProposalRow) × (select (version_of id version) t.proposals ≡ some r)
      × (r.payload ≡ p)
      × (r.lock_version ≡ lock)
      × (t' ≡ t)
unfolding locked_proposal
locked_ok id version lock t t' p e =
    elim (Option-cases (select (version_of id version) t.proposals)) [
      | inl missing ↦ absurd (ground arith)
      | inr (r, found) ↦ (r, found, ground arith, ground arith, ground arith)
    ]

insert_audit-same :
    (setup : Setup) (actor action resource_id correlation_id payload : String) (now : ℕ)
    (t t' : ReviewTables) (a : Unit {0})
    → insert_audit setup actor action resource_id correlation_id payload now t ≡ ok (a, t')
    → t'.proposals ≡ t.proposals
unfolding insert_audit
insert_audit-same setup actor action resource_id correlation_id payload now t t' a e = ground arith

record_decision-rows :
    (setup : Setup) (v : Verdict) (id : String) (version : ℕ) (actor rationale : String)
    (lock now : ℕ) (current : Proposal) (t t' : ReviewTables) (p : Proposal)
    → record_decision setup v id version actor rationale lock now current t ≡ ok (p, t')
    → (may_move current.state (state_of v) ≡ true)
      × (t'.proposals
          ≡ update
              (locked_at id version lock)
              (overwritten (decided setup v id version actor rationale now current))
              t.proposals)
unfolding record_decision update_proposal
record_decision-rows setup v id version actor rationale lock now current t t' p e =
    let q : Proposal = decided setup v id version actor rationale now current in
    let t1 : ReviewTables = update_proposal id version lock q t in
    let audit : Tx ReviewTables (Unit {0}) =
      insert_audit setup actor (join ("PROPOSAL_" ∷ verdict_text v ∷ [])) id current.correlation_id
        (join (decimal version ∷ ":" ∷ rationale ∷ [])) now in
    elim (Result-cases (audit t1)) [
      | inl ((a, t2), written) ↦
          let same : t2.proposals ≡ t1.proposals =
            insert_audit-same setup actor (join ("PROPOSAL_" ∷ verdict_text v ∷ [])) id
              current.correlation_id (join (decimal version ∷ ":" ∷ rationale ∷ [])) now t1 t2 a
              written in
          (ground (arith, written, same), ground (arith, written, same))
      | inr (x, fails) ↦ absurd (ground (arith, fails))
    ]

pub decide_tx-Write :
    (setup : Setup) (v : Verdict) (id : String) (version : ℕ) (actor rationale : String)
    (lock now : ℕ) (t t' : ReviewTables) (p : Proposal)
    → decide_tx setup v id version actor rationale lock now t ≡ ok (p, t')
    → (q : Proposal) × (m : Moves t.proposals id version lock q) × (m.row.lock_version ≡ lock)
      × (q.state ≡ state_of v)
      × (t'.proposals ≡ update (locked_at id version lock) (overwritten q) t.proposals)
unfolding decide_tx
decide_tx-Write setup v id version actor rationale lock now t t' p e =
    let (current, t0, locked, rest) =
      bind_ok (locked_proposal id version lock)
        (record_decision setup v id version actor rationale lock now) t t' p e in
    let (r, found, payload, at, same) = locked_ok id version lock t t0 current locked in
    let (moves, rows) =
      record_decision-rows setup v id version actor rationale lock now current t0 t' p rest in
    (
      decided setup v id version actor rationale now current,
      record { row = r; found = found; moves = rw payload moves; lock_version = rw payload refl },
      at,
      refl,
      rows
          ∙ ap
              (λ (s : ReviewTables).
                update (locked_at id version lock)
                  (overwritten (decided setup v id version actor rationale now current))
                  s.proposals)
              same,
    )

pub decide-Write :
    (setup : Setup) (v : Verdict) (id : String) (version : ℕ) (actor rationale : String)
    (lock now : ℕ) (t : ReviewTables)
    → Write t.proposals (decide setup v id version actor rationale lock now t).1.proposals
unfolding decide
decide-Write setup v id version actor rationale lock now t =
    subst (Write t.proposals)
      (sym (
        store_approval-same setup (Decisions.approval_of setup v id version actor rationale now)
          (transaction (decide_tx setup v id version actor rationale lock now) t)))
      (transaction-keeps (λ (u : ReviewTables). Write t.proposals u.proposals)
        (decide_tx setup v id version actor rationale lock now) t (keeps refl)
        λ p t' e.
          let (q, moves, _, _, rows) =
            decide_tx-Write setup v id version actor rationale lock now t t' p e in
          writes id version lock q moves rows)

insert_proposal-rows :
    (p : Proposal) (t t' : ReviewTables) (a : Unit {0})
    → insert_proposal p t ≡ ok (a, t')
    → (any (version_of p.proposal_id p.version) t.proposals ≡ false)
      × (t'.proposals ≡ t.proposals ++ row_of p ∷ [])
unfolding insert_proposal
insert_proposal-rows p t t' a e =
    elim (Bool-cases (any (version_of p.proposal_id p.version) t.proposals)) [
      | inl taken ↦ absurd (ground (arith, taken))
      | inr fresh ↦ (fresh, ground (arith, fresh))
    ]

record_correction-rows :
    (setup : Setup) (id : String) (version : ℕ) (edges : List Edge) (actor rationale : String)
    (lock now : ℕ) (current : Proposal) (t t' : ReviewTables) (p : Proposal)
    → record_correction setup id version edges actor rationale lock now current t ≡ ok (p, t')
    → (may_move current.state superseded ≡ true)
      × (any (version_of id (version + 1)) (
            update
              (locked_at id version lock)
              (overwritten (replaced id version actor rationale now current))
              t.proposals)
          ≡ false)
      × (t'.proposals
          ≡ update
              (locked_at id version lock)
              (overwritten (replaced id version actor rationale now current))
              t.proposals
            ++ row_of (successor id version edges now current) ∷ [])
unfolding record_correction update_proposal
record_correction-rows setup id version edges actor rationale lock now current t t' p e =
    let q : Proposal = replaced id version actor rationale now current in
    let s : Proposal = successor id version edges now current in
    let t1 : ReviewTables = update_proposal id version lock q t in
    elim (Result-cases (insert_proposal s t1)) [
      | inl ((a, t2), inserted) ↦
          let (fresh, rows) = insert_proposal-rows s t1 t2 a inserted in
          elim (Result-cases (
            insert_audit setup actor "PROPOSAL_CORRECTED" id current.correlation_id
              (join (decimal version ∷ ":" ∷ decimal (version + 1) ∷ ":" ∷ rationale ∷ [])) now
              t2)) [
                | inl ((b, t3), written) ↦
                    let same : t3.proposals ≡ t2.proposals =
                      insert_audit-same setup actor "PROPOSAL_CORRECTED" id current.correlation_id
                        (join
                          (decimal version ∷ ":" ∷ decimal (version + 1) ∷ ":" ∷ rationale ∷ []))
                        now t2 t3 b written in
                    (
                      ground (arith, inserted, written),
                      fresh,
                      ground (arith, inserted, written) ∙ same ∙ rows,
                    )
                | inr (x, fails) ↦ absurd (ground (arith, inserted, fails))
              ]
      | inr (x, fails) ↦ absurd (ground (arith, fails))
    ]

correct_tx-Write :
    (setup : Setup) (id : String) (version : ℕ) (edges : List Edge) (actor rationale : String)
    (lock now : ℕ) (t t' : ReviewTables) (p : Proposal)
    → correct_tx setup id version edges actor rationale lock now t ≡ ok (p, t')
    → Write t.proposals t'.proposals
unfolding correct_tx
correct_tx-Write setup id version edges actor rationale lock now t t' p e =
    let (current, t0, locked, rest) =
      bind_ok (locked_proposal id version lock)
        (record_correction setup id version edges actor rationale lock now) t t' p e in
    let (r, found, payload, at, same) = locked_ok id version lock t t0 current locked in
    let (moves, fresh, rows) =
      record_correction-rows setup id version edges actor rationale lock now current t0 t' p rest in
    let q : Proposal = replaced id version actor rationale now current in
    let same_rows : t0.proposals ≡ t.proposals = ap (λ (s : ReviewTables). s.proposals) same in
    corrects id version lock q (successor id version edges now current)
      (record { row = r; found = found; moves = rw payload moves; lock_version = rw payload refl })
      at refl refl refl refl
      (subst
        (λ (x : List ProposalRow).
          any (version_of id (version + 1)) (update (locked_at id version lock) (overwritten q) x)
          ≡ false)
        same_rows fresh)
      (rows
        ∙ ap
            (λ (x : List ProposalRow).
              update (locked_at id version lock) (overwritten q) x
              ++ row_of (successor id version edges now current) ∷ [])
            same_rows)

pub correct-Write :
    (setup : Setup) (id : String) (version : ℕ) (edges : List Edge) (actor rationale : String)
    (lock now : ℕ) (t : ReviewTables)
    → Write t.proposals (correct setup id version edges actor rationale lock now t).1.proposals
unfolding correct
correct-Write setup id version edges actor rationale lock now t =
    subst (Write t.proposals)
      (sym (
        stored-same setup
          (transaction (correct_tx setup id version edges actor rationale lock now) t)))
      (transaction-keeps (λ (u : ReviewTables). Write t.proposals u.proposals)
        (correct_tx setup id version edges actor rationale lock now) t (keeps refl)
        λ p t' e. correct_tx-Write setup id version edges actor rationale lock now t t' p e)

pub finalize-Write :
    (id : String) (version now : ℕ) (t : ReviewTables)
    → Write t.proposals (finalize id version now t).1.proposals
unfolding finalize finalize_found Review.get find update_proposal
finalize-Write id version now t = elim (Option-cases (select (version_of id version) t.proposals)) [
  | inl missing ↦ rw missing (keeps refl)
  | inr (r, found) ↦ elim (Bool-cases (may_move r.payload.state finalized)) [
    | inl moves ↦
        rw (found, finalize_found, moves)
          (writes id version r.payload.lock_version (completed now r.payload)
            (record { row = r; found = found; moves = moves; lock_version = refl }) refl)
    | inr refused ↦ rw (found, finalize_found, refused) (keeps refl)
  ]
]

created-same :
    (setup : Setup) (x : Result (Proposal × Bool) × ReviewTables)
    → (created setup x).1.proposals ≡ x.1.proposals
unfolding created store_proposal
created-same setup (err e, t) = refl
created-same setup (ok (p, true), t) = refl
created-same setup (ok (p, false), t) = kept-same p (put setup.paths _ t.evidence) t

create_found-Write :
    (p : Proposal) (row : Option ProposalRow) (t t' : ReviewTables) (x : Proposal × Bool)
    → p.version ≡ 1
    → p.state ≡ in_review
    → create_found p row t ≡ ok (x, t')
    → Write t.proposals t'.proposals
create_found-Write p (some r) t t' x v s e = keeps (ground arith)
create_found-Write p none t t' x v s e =
    let (a, u, inserted, rest) = bind_ok (insert_proposal p) (λ _. pure (p, false)) t t' x e in
    let (fresh, rows) = insert_proposal-rows p t u a inserted in
    creates p v s fresh (ground (arith, rest) ∙ rows)

create_tx-Write :
    (setup : Setup) (p : Proposal) (t t' : ReviewTables) (x : Proposal × Bool)
    → p.version ≡ 1
    → p.state ≡ in_review
    → create_tx setup p t ≡ ok (x, t')
    → Write t.proposals t'.proposals
unfolding create_tx
create_tx-Write setup p t t' x v s e =
    create_found-Write p (select (version_of p.proposal_id 1) t.proposals) t t' x v s (ground arith)

create_owned-Write :
    (setup : Setup) (edges : List Edge) (base correlation_id : String) (now : ℕ) (o : Result String)
    (t : ReviewTables)
    → Write t.proposals (create_owned setup edges base correlation_id now o t).1.proposals
unfolding create_owned
create_owned-Write setup edges base correlation_id now (err e) t = keeps refl
create_owned-Write setup edges base correlation_id now (ok system) t =
    let p : Proposal = first_version setup system edges base correlation_id now in
    subst (Write t.proposals) (sym (created-same setup (transaction (create_tx setup p) t))) (
      transaction-keeps (λ (u : ReviewTables). Write t.proposals u.proposals) (create_tx setup p) t
        (keeps refl) λ x t' e. create_tx-Write setup p t t' x refl refl e)

pub create-Write :
    (setup : Setup) (edges : List Edge) (base correlation_id : String) (now : ℕ) (t : ReviewTables)
    → Write t.proposals (create setup edges base correlation_id now t).1.proposals
unfolding create
create-Write setup edges base correlation_id now t =
    let ordered : List Edge = sort_by (λ (e : Edge). e.edge_key) edges in
    create_owned-Write setup ordered base correlation_id now (owner ordered) t
