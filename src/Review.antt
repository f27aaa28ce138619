-- ===== src/Review.antt =====
-- `ReviewService` of services/review.py: the versions of a proposal and the decisions on them, under a lock
-- version that each write increments. The digests are parameters: of a proposal's identity, of the bodies
-- that the evidence store keeps, and of the identity of an approval and of an audit row.
pub mod Decisions
pub mod Effects
pub mod History
pub mod Lineages
pub mod Verdicts
use Prim.Native.String.{compare as compare_text}
use text.Mathlib.Text.{is_le}
use lineage_collection.Prelude.{
  ℕ, ◌+◌, String, Bool, true, false, not, ◌&&◌, ◌||◌, Option, none, some, List, [], ◌∷◌, ◌++◌, ◌==◌,
  eqb, ltb, leb, any, matching, join, decimal, select, select_all, update, map, if◌then◌else◌,
}
use lineage_collection.Database.Transaction.{
  Result, ok, err, Tx, Error, empty_proposal, mixed_ownership, stale_base_version,
  proposal_not_found, concurrent_decision, invalid_transition, constraint_failed, ◌>>=◌, ◌>>◌,
  guard, modify, pure, gets, or_raise, transaction,
}
use lineage_collection.Domain.Proposals.{
  ProposalState, in_review, approved, rejected, superseded, finalized, state_code, may_move,
}
use lineage_collection.Clock.{text_leb}
use lineage_collection.Evidence.{EvidenceRef, EvidenceStore, put}
use lineage_collection.Publication.Tables.{Edge, Pointer, AuditEvent}
use lineage_collection.Publication.{pointer_of, points_at, sort_by}

pub record Decision : Type 0 where
  pub approval_id : Option String
  pub actor : String
  pub rationale : String
  pub decision : String
  pub decided_at : ℕ

-- `Proposal` of domain/proposals.py, with `diff["added"]` alone: the two other lists are empty here.
pub record Proposal : Type 0 where
  pub proposal_id : String
  pub version : ℕ
  pub system : String
  pub state : ProposalState
  pub expected_base_version : String
  pub added : List Edge
  pub correlation_id : String
  pub created_at : ℕ
  pub updated_at : ℕ
  pub lock_version : ℕ
  pub auto_publish_override : String
  pub supersedes : Option String
  pub superseded_by : Option String
  pub decision : Option Decision

-- A row of `proposals`: the columns by which statements select, and `payload_json`.
pub record ProposalRow : Type 0 where
  pub proposal_id : String
  pub version : ℕ
  pub state : ProposalState
  pub lock_version : ℕ
  pub created_at : ℕ
  pub payload : Proposal

pub record ReviewTables : Type 0 where
  pub proposals : List ProposalRow
  pub pointers : List Pointer
  pub audits : List AuditEvent
  pub evidence : EvidenceStore

pub record ApprovalRecord : Type 0 where
  pub approval_id : String
  pub proposal_id : String
  pub proposal_version : ℕ
  pub decision : String
  pub actor : String
  pub rationale : String
  pub correlation_id : String
  pub decided_at : ℕ

pub record ReviewDecision : Type 0 where
  pub proposal : Proposal
  pub approval : ApprovalRecord
  pub reference : EvidenceRef

abbrev pub version_of : String → ℕ → ProposalRow → Bool
version_of id version r = r.proposal_id == id && eqb r.version version

abbrev pub row_of : Proposal → ProposalRow
row_of p = record {
  proposal_id = p.proposal_id;
  version = p.version;
  state = p.state;
  lock_version = p.lock_version;
  created_at = p.created_at;
  payload = p;
}

-- `get` of one version, and of the last one
unfoldable pub find : Option ProposalRow → Result Proposal
find none = err proposal_not_found
find (some r) = ok r.payload

unfoldable pub latest : List ProposalRow → Option ProposalRow
latest [] = none
latest (r ∷ rs) = elim (latest rs) [
  | none ↦ some r
  | some s ↦ some (if ltb s.version r.version then r else s)
]

unfoldable pub get : String → Option ℕ → ReviewTables → Result Proposal
get id none t = find (latest (select_all (λ (r : ProposalRow). r.proposal_id == id) t.proposals))
get id (some version) t = find (select (version_of id version) t.proposals)

-- `list_queue`: ORDER BY created_at, proposal_id, version, where timestamps are compared as texts
abbrev pub queue_leb : ProposalRow → ProposalRow → Bool
queue_leb a b =
    not (text_leb b.created_at a.created_at)
    || (text_leb a.created_at b.created_at
        && (if a.proposal_id == b.proposal_id
            then leb a.version b.version
            else is_le (compare_text a.proposal_id b.proposal_id)))

unfoldable pub insert_row : ProposalRow → List ProposalRow → List ProposalRow
insert_row r [] = r ∷ []
insert_row r (s ∷ rs) = if queue_leb r s then r ∷ s ∷ rs else s ∷ insert_row r rs

unfoldable pub sort_rows : List ProposalRow → List ProposalRow
sort_rows [] = []
sort_rows (r ∷ rs) = insert_row r (sort_rows rs)

unfoldable pub list_queue : ProposalState → ReviewTables → List Proposal
list_queue state t =
    map (λ (r : ProposalRow). r.payload)
      (sort_rows
        (select_all (λ (r : ProposalRow). eqb (state_code r.state) (state_code state)) t.proposals))

unfoldable pub proposal_count : String → ReviewTables → ℕ
proposal_count id t = matching (λ (r : ProposalRow). r.proposal_id == id) t.proposals

-- The INSERT into `proposals`, with its primary key.
unfoldable pub insert_proposal : Proposal → Tx ReviewTables (Unit {0})
insert_proposal p = do
  taken ← gets (λ t. any (version_of p.proposal_id p.version) t.proposals)
  guard (not taken) constraint_failed
  modify (λ t. record t { proposals = t.proposals ++ row_of p ∷ [] })

-- UPDATE proposals SET ... WHERE proposal_id = ? AND version = ? AND lock_version = ?
abbrev pub locked_at : String → ℕ → ℕ → ProposalRow → Bool
locked_at id version lock r = version_of id version r && eqb r.lock_version lock

abbrev pub overwritten : Proposal → ProposalRow → ProposalRow
overwritten p r = record r { state = p.state; lock_version = p.lock_version; payload = p }

unfoldable pub update_proposal : String → ℕ → ℕ → Proposal → ReviewTables → ReviewTables
update_proposal id version lock p t = record t {
  proposals = update (locked_at id version lock) (overwritten p) t.proposals;
}

-- `_locked_proposal`
abbrev pub unlocked : ℕ → Option ProposalRow → Tx ReviewTables Proposal
unlocked lock none t = err proposal_not_found
unlocked lock (some r) t =
    if eqb r.lock_version lock then ok (r.payload, t) else err concurrent_decision

unfoldable pub locked_proposal : String → ℕ → ℕ → Tx ReviewTables Proposal
locked_proposal id version lock t = unlocked lock (select (version_of id version) t.proposals) t

abbrev pub proposal_ref : String → ℕ → String
proposal_ref id version = join (id ∷ ":v" ∷ decimal version ∷ [])

abbrev pub proposal_key : Proposal → String
proposal_key p = join (p.system ∷ "/" ∷ p.proposal_id ∷ "/v" ∷ decimal p.version ∷ [])

-- `create` raises on no edges and on edges of several systems.
abbrev pub same_system : String → List Edge → Bool
same_system system [] = true
same_system system (e ∷ es) = (e.system == system) && same_system system es

unfoldable pub owner : List Edge → Result String
owner [] = err empty_proposal
owner (e ∷ es) = if same_system e.system es then ok e.system else err mixed_ownership
