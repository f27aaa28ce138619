-- ===== src/Review/Decisions.antt =====
-- The calls of ReviewService (services/review.py) that change a proposal: create, approve, reject, correct
-- and finalize. The evidence of a call is stored after its transaction has committed.
use lineage_collection.Prelude.{
  ℕ, ◌+◌, String, Bool, true, false, not, Option, none, some, List, [], ◌∷◌, ◌++◌, ◌==◌, any, join,
  decimal, select, matching, eqb, if◌then◌else◌,
}
use lineage_collection.Database.Transaction.{
  Result, ok, err, Tx, stale_base_version, concurrent_decision, invalid_transition,
  constraint_failed, ◌>>=◌, ◌>>◌, guard, modify, pure, gets, transaction,
}
use lineage_collection.Domain.Proposals.{
  ProposalState, in_review, approved, rejected, superseded, finalized, may_move,
}
use lineage_collection.Evidence.{KeyPaths, EvidenceRef, EvidenceStore, put}
use lineage_collection.Publication.Tables.{Edge, AuditEvent}
use lineage_collection.Publication.{pointer_of, points_at, sort_by}
use lineage_collection.Review
use lineage_collection.Review.{
  Decision, Proposal, ProposalRow, ReviewTables, ApprovalRecord, ReviewDecision, version_of, row_of,
  locked_at, overwritten, update_proposal, insert_proposal, locked_proposal, proposal_ref,
  proposal_key, owner,
}

-- The digests, the environment of the service and pathlib's reading of a key.
pub record Setup : Type 0 where
  pub env : String
  pub paths : KeyPaths
  pub proposal_identity : List Edge → String → String → String
  pub approval_identity : String → ℕ → String → String → String → String
  pub audit_identity : String → String → String → ℕ → String → String
  pub proposal_digest : Proposal → String
  pub approval_digest : ApprovalRecord → String

-- `_insert_audit`; `payload` is the text of its payload.
unfoldable pub insert_audit :
    Setup → String → String → String → String → String → ℕ → Tx ReviewTables (Unit {0})
insert_audit setup actor action resource_id correlation_id payload now = do
  taken ← gets λ t.
      any
        (λ (a : AuditEvent).
          a.audit_id == setup.audit_identity actor action resource_id now payload)
        t.audits
  guard (not taken) constraint_failed
  modify λ t. record t {
    audits =
        t.audits
        ++ record {
          audit_id = setup.audit_identity actor action resource_id now payload;
          actor = actor;
          action = action;
          resource_type = "PROPOSAL";
          resource_id = resource_id;
          correlation_id = correlation_id;
          created_at = now;
        }
          ∷ [];
  }

-- `EvidenceStore.put` after the commit: what was committed stays when it raises.
abbrev pub kept :
    {A : Type 0} → A → Result EvidenceRef × EvidenceStore → ReviewTables → Result A × ReviewTables
kept a (ok r, evidence) t = (ok a, record t { evidence = evidence })
kept a (err e, evidence) t = (err e, record t { evidence = evidence })

unfoldable pub store_proposal : Setup → Proposal → ReviewTables → Result Proposal × ReviewTables
store_proposal setup p t =
    kept p
      (put setup.paths
        (record {
          kind = "proposal";
          key = proposal_key p;
          checksum = setup.proposal_digest p;
          schema_version = "1.0.0";
        })
        t.evidence)
      t

-- `create`
abbrev pub first_version : Setup → String → List Edge → String → String → ℕ → Proposal
first_version setup system edges base correlation_id now = record {
  proposal_id = join ("proposal-" ∷ setup.proposal_identity edges base correlation_id ∷ []);
  version = 1;
  system = system;
  state = in_review;
  expected_base_version = base;
  added = edges;
  correlation_id = correlation_id;
  created_at = now;
  updated_at = now;
  lock_version = 1;
  auto_publish_override = "MANUAL_REVIEW_FOR_M1_DEMO";
  supersedes = none;
  superseded_by = none;
  decision = none;
}

-- The first version that is stored, with `true`, or the one that is inserted, with `false`.
abbrev pub create_found : Proposal → Option ProposalRow → Tx ReviewTables (Proposal × Bool)
create_found p (some r) t = ok ((r.payload, true), t)
create_found p none t = (insert_proposal p >> pure (p, false)) t

unfoldable pub create_tx : Setup → Proposal → Tx ReviewTables (Proposal × Bool)
create_tx setup p = do
  row ← gets (λ t. select (pointer_of setup.env) t.pointers)
  guard (points_at p.expected_base_version row) stale_base_version
  existing ← gets (λ t. select (version_of p.proposal_id 1) t.proposals)
  create_found p existing

unfoldable pub created :
    Setup → Result (Proposal × Bool) × ReviewTables → Result Proposal × ReviewTables
created setup (err e, t) = (err e, t)
created setup (ok (p, true), t) = (ok p, t)
created setup (ok (p, false), t) = store_proposal setup p t

unfoldable pub create_owned :
    Setup
    → List Edge
    → String
    → String
    → ℕ
    → Result String
    → ReviewTables
    → Result Proposal × ReviewTables
create_owned setup edges base correlation_id now (err e) t = (err e, t)
create_owned setup edges base correlation_id now (ok system) t =
    created setup
      (transaction (create_tx setup (first_version setup system edges base correlation_id now)) t)

unfoldable pub create :
    Setup → List Edge → String → String → ℕ → ReviewTables → Result Proposal × ReviewTables
create setup edges base correlation_id now t =
    let ordered : List Edge = sort_by (λ (e : Edge). e.edge_key) edges in
    create_owned setup ordered base correlation_id now (owner ordered) t

-- `_decide`
pub data Verdict : Type 0 where
  approve reject : Verdict

abbrev pub state_of : Verdict → ProposalState
state_of approve = approved
state_of reject = rejected

abbrev pub verdict_text : Verdict → String
verdict_text approve = "APPROVED"
verdict_text reject = "REJECTED"

abbrev pub approval_id_of : Setup → String → ℕ → Verdict → String → String → String
approval_id_of setup id version v actor rationale =
    join ("approval-" ∷ setup.approval_identity id version (verdict_text v) actor rationale ∷ [])

abbrev pub decided : Setup → Verdict → String → ℕ → String → String → ℕ → Proposal → Proposal
decided setup v id version actor rationale now p = record p {
  state = state_of v;
  updated_at = now;
  lock_version = p.lock_version + 1;
  decision = some (record {
    approval_id = some (approval_id_of setup id version v actor rationale);
    actor = actor;
    rationale = rationale;
    decision = verdict_text v;
    decided_at = now;
  });
}

-- What `_decide` does with the proposal that it has locked.
unfoldable pub record_decision :
    Setup → Verdict → String → ℕ → String → String → ℕ → ℕ → Proposal → Tx ReviewTables Proposal
record_decision setup v id version actor rationale lock now current = do
  guard (may_move current.state (state_of v)) invalid_transition
  changed ← gets (λ t. matching (locked_at id version lock) t.proposals)
  modify (update_proposal id version lock (decided setup v id version actor rationale now current))
  guard (eqb changed 1) concurrent_decision
  insert_audit setup actor (join ("PROPOSAL_" ∷ verdict_text v ∷ [])) id current.correlation_id
      (join (decimal version ∷ ":" ∷ rationale ∷ [])) now
  pure (decided setup v id version actor rationale now current)

unfoldable pub decide_tx :
    Setup → Verdict → String → ℕ → String → String → ℕ → ℕ → Tx ReviewTables Proposal
decide_tx setup v id version actor rationale lock now =
    locked_proposal id version lock >>= record_decision setup v id version actor rationale lock now

abbrev pub approval_of :
    Setup → Verdict → String → ℕ → String → String → ℕ → Proposal → ApprovalRecord
approval_of setup v id version actor rationale now p = record {
  approval_id = approval_id_of setup id version v actor rationale;
  proposal_id = id;
  proposal_version = version;
  decision = verdict_text v;
  actor = actor;
  rationale = rationale;
  correlation_id = p.correlation_id;
  decided_at = now;
}

abbrev pub approval_reference : Setup → Proposal → ApprovalRecord → EvidenceRef
approval_reference setup p a = record {
  kind = "approval";
  key = join (p.system ∷ "/" ∷ a.approval_id ∷ []);
  checksum = setup.approval_digest a;
  schema_version = "1.0.0";
}

abbrev pub decision_of : Setup → Proposal → ApprovalRecord → ReviewDecision
decision_of setup p a = record {
  proposal = p;
  approval = a;
  reference = approval_reference setup p a;
}

unfoldable pub store_approval :
    Setup
    → (Proposal → ApprovalRecord)
    → Result Proposal × ReviewTables
    → Result ReviewDecision × ReviewTables
store_approval setup approval (err e, t) = (err e, t)
store_approval setup approval (ok p, t) =
    kept (decision_of setup p (approval p))
      (put setup.paths (approval_reference setup p (approval p)) t.evidence) t

-- `approve` and `reject`
unfoldable pub decide :
    Setup
    → Verdict
    → String
    → ℕ
    → String
    → String
    → ℕ
    → ℕ
    → ReviewTables
    → Result ReviewDecision × ReviewTables
decide setup v id version actor rationale lock now t =
    store_approval setup (approval_of setup v id version actor rationale now)
      (transaction (decide_tx setup v id version actor rationale lock now) t)

-- `correct`
abbrev pub replaced : String → ℕ → String → String → ℕ → Proposal → Proposal
replaced id version actor rationale now p = record p {
  state = superseded;
  updated_at = now;
  lock_version = p.lock_version + 1;
  superseded_by = some (proposal_ref id (version + 1));
  decision = some (record {
    approval_id = none;
    actor = actor;
    rationale = rationale;
    decision = "CORRECTED";
    decided_at = now;
  });
}

abbrev pub successor : String → ℕ → List Edge → ℕ → Proposal → Proposal
successor id version edges now p = record {
  proposal_id = id;
  version = version + 1;
  system = p.system;
  state = in_review;
  expected_base_version = p.expected_base_version;
  added = sort_by (λ (e : Edge). e.edge_key) edges;
  correlation_id = p.correlation_id;
  created_at = now;
  updated_at = now;
  lock_version = 1;
  auto_publish_override = p.auto_publish_override;
  supersedes = some (proposal_ref id version);
  superseded_by = none;
  decision = none;
}

unfoldable pub record_correction :
    Setup → String → ℕ → List Edge → String → String → ℕ → ℕ → Proposal → Tx ReviewTables Proposal
record_correction setup id version edges actor rationale lock now current = do
  guard (may_move current.state superseded) invalid_transition
  modify (update_proposal id version lock (replaced id version actor rationale now current))
  insert_proposal (successor id version edges now current)
  insert_audit setup actor "PROPOSAL_CORRECTED" id current.correlation_id
      (join (decimal version ∷ ":" ∷ decimal (version + 1) ∷ ":" ∷ rationale ∷ [])) now
  pure (successor id version edges now current)

unfoldable pub correct_tx :
    Setup → String → ℕ → List Edge → String → String → ℕ → ℕ → Tx ReviewTables Proposal
correct_tx setup id version edges actor rationale lock now =
    locked_proposal id version lock
    >>= record_correction setup id version edges actor rationale lock now

unfoldable pub stored : Setup → Result Proposal × ReviewTables → Result Proposal × ReviewTables
stored setup (err e, t) = (err e, t)
stored setup (ok p, t) = store_proposal setup p t

unfoldable pub correct :
    Setup
    → String
    → ℕ
    → List Edge
    → String
    → String
    → ℕ
    → ℕ
    → ReviewTables
    → Result Proposal × ReviewTables
correct setup id version edges actor rationale lock now t =
    stored setup (transaction (correct_tx setup id version edges actor rationale lock now) t)

-- `finalize`, which reads before its transaction and does not look at the row count
abbrev pub completed : ℕ → Proposal → Proposal
completed now p = record p {
  state = finalized;
  lock_version = p.lock_version + 1;
  updated_at = now;
}

unfoldable pub finalize_found :
    String → ℕ → ℕ → Result Proposal → ReviewTables → Result Proposal × ReviewTables
finalize_found id version now (err e) t = (err e, t)
finalize_found id version now (ok p) t =
    if may_move p.state finalized
    then (ok (completed now p), update_proposal id version p.lock_version (completed now p) t)
    else (err invalid_transition, t)

unfoldable pub finalize : String → ℕ → ℕ → ReviewTables → Result Proposal × ReviewTables
finalize id version now t = finalize_found id version now (Review.get id (some version) t) t
