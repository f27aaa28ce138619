-- ===== src/Tests/Reviews.antt =====
-- Concrete reviews: a proposal that is created, corrected and decided.
use lineage_collection.Prelude.{
  String, true, ◌≡◌, refl, none, List, [], ◌∷◌, inl, inr, Has, join, select, select_all, update,
  matching, decimal, digits, map,
}
use lineage_collection.Database.Transaction.{Error, ok, err, Result}
use lineage_collection.Domain.Proposals
use lineage_collection.Domain.Proposals.{ProposalState, in_review, approved, superseded}
use lineage_collection.Evidence
use lineage_collection.Evidence.{empty_store}
use lineage_collection.Publication
use lineage_collection.Publication.Tables.{Edge}
use lineage_collection.Review
use lineage_collection.Review.{Proposal, ProposalRow, ReviewTables, ReviewDecision}
use lineage_collection.Review.Decisions
use lineage_collection.Review.Decisions.{Setup, approve, reject}
use lineage_collection.Review.History.{Call, creates, corrects, finalizes, run, step}
use lineage_collection.Review.Lineages
use lineage_collection.Review.Verdicts

abbrev setup : Setup
setup = record {
  env = "prod";
  paths = record { is_safe = λ _. true; path_of = λ k. k };
  proposal_identity = λ edges base correlation_id. correlation_id;
  approval_identity = λ id version verdict actor rationale. join (id ∷ verdict ∷ actor ∷ []);
  audit_identity = λ actor action resource_id now payload. join (action ∷ ":" ∷ payload ∷ []);
  proposal_digest = λ p. p.proposal_id;
  approval_digest = λ a. a.approval_id;
}

abbrev edge : String → Edge
edge key = record { edge_key = key; status = none; system = "orders"; version = 1; body = "" }

abbrev start : ReviewTables
start = record {
  proposals = [];
  pointers = record { env = "prod"; active_version = "v1"; fencing_token = 0; updated_at = 0 } ∷ [];
  audits = [];
  evidence = empty_store;
}

abbrev calls : List Call
calls =
    creates (edge "b" ∷ edge "a" ∷ []) "v1" "c" 1
    ∷ corrects "proposal-c" 1 (edge "a" ∷ []) "ann" "typo" 1 2
    ∷ []

reviewed : ReviewTables
reviewed = run setup start calls

decided : Result ReviewDecision × ReviewTables
decided = Decisions.decide setup approve "proposal-c" 2 "bob" "good" 1 3 reviewed

states : ReviewTables → List ProposalState
states t = map (λ (r : ProposalRow). r.state) t.proposals

calls_work : states (decided.1) ≡ superseded ∷ approved ∷ []
unfolding states decided reviewed select select_all update matching decimal digits join Review.find
    Review.latest Review.get Review.insert_row Review.sort_rows Review.list_queue
    Review.proposal_count Review.insert_proposal Review.update_proposal Review.locked_proposal
    Review.owner Decisions.insert_audit Decisions.store_proposal Decisions.create_tx
    Decisions.created Decisions.create_owned Decisions.create Decisions.record_decision
    Decisions.decide_tx Decisions.store_approval Decisions.decide Decisions.record_correction
    Decisions.correct_tx Decisions.stored Decisions.correct Decisions.finalize_found
    Decisions.finalize Evidence.allowed_kind Evidence.put Evidence.validate_location
    Evidence.write_file Evidence.write_object Publication.sort_by Publication.insert_by
    Proposals.may_move Proposals.allowed_transitions run step
calls_work = refl

abbrev open_version : Proposal
open_version =
    Decisions.successor "proposal-c" 1 (edge "a" ∷ []) 2
      (Decisions.first_version setup "orders" (edge "a" ∷ edge "b" ∷ []) "v1" "c" 1)

open_row_there : Has (Review.row_of open_version) (run setup start calls).proposals
unfolding select select_all update matching decimal digits join Review.find Review.latest Review.get
    Review.insert_row Review.sort_rows Review.list_queue Review.proposal_count
    Review.insert_proposal Review.update_proposal Review.locked_proposal Review.owner
    Decisions.insert_audit Decisions.store_proposal Decisions.create_tx Decisions.created
    Decisions.create_owned Decisions.create Decisions.record_decision Decisions.decide_tx
    Decisions.store_approval Decisions.decide Decisions.record_correction Decisions.correct_tx
    Decisions.stored Decisions.correct Decisions.finalize_found Decisions.finalize
    Evidence.allowed_kind Evidence.put Evidence.validate_location Evidence.write_file
    Evidence.write_object Publication.sort_by Publication.insert_by Proposals.may_move
    Proposals.allowed_transitions run step
open_row_there = inr (inl refl)

one_open_version_example : Review.row_of open_version ≡ Review.row_of open_version
one_open_version_example =
    Lineages.one_open_version setup start calls (Review.row_of open_version)
      (Review.row_of open_version) refl open_row_there open_row_there refl (λ e. cc) (λ e. cc)

abbrev approved_version : Proposal
approved_version = Decisions.decided setup approve "proposal-c" 2 "bob" "good" 3 open_version

abbrev decision : ReviewDecision
decision =
    Decisions.decision_of setup approved_version
      (Decisions.approval_of setup approve "proposal-c" 2 "bob" "good" 3 approved_version)

approved_tables : ReviewTables
approved_tables = (Decisions.decide setup approve "proposal-c" 2 "bob" "good" 1 3 reviewed).1

approval_works :
    Decisions.decide setup approve "proposal-c" 2 "bob" "good" 1 3 reviewed
    ≡ (ok decision, approved_tables)
unfolding approved_tables reviewed select select_all update matching decimal digits join Review.find
    Review.latest Review.get Review.insert_row Review.sort_rows Review.list_queue
    Review.proposal_count Review.insert_proposal Review.update_proposal Review.locked_proposal
    Review.owner Decisions.insert_audit Decisions.store_proposal Decisions.create_tx
    Decisions.created Decisions.create_owned Decisions.create Decisions.record_decision
    Decisions.decide_tx Decisions.store_approval Decisions.decide Decisions.record_correction
    Decisions.correct_tx Decisions.stored Decisions.correct Decisions.finalize_found
    Decisions.finalize Evidence.allowed_kind Evidence.put Evidence.validate_location
    Evidence.write_file Evidence.write_object Publication.sort_by Publication.insert_by
    Proposals.may_move Proposals.allowed_transitions run step
approval_works = refl

decided_once_example :
    ((e : Error) × (Decisions.decide setup reject "proposal-c" 2 "eve" "bad" 2 9
          (run setup approved_tables (finalizes "proposal-c" 2 5 ∷ []))
        ≡ (err e, run setup approved_tables (finalizes "proposal-c" 2 5 ∷ []))))
    × ((e : Error) × (Decisions.correct setup "proposal-c" 2 [] "eve" "bad" 2 9
            (run setup approved_tables (finalizes "proposal-c" 2 5 ∷ []))
          ≡ (err e, run setup approved_tables (finalizes "proposal-c" 2 5 ∷ []))))
decided_once_example =
    Verdicts.decided_once setup approve reject "proposal-c" 2 "bob" "good" "eve" "bad" 1 3 2 9 []
      reviewed approved_tables decision (finalizes "proposal-c" 2 5 ∷ []) approval_works

finalized_after :
    states (run setup approved_tables (finalizes "proposal-c" 2 5 ∷ []))
    ≡ superseded ∷ ProposalState.finalized ∷ []
unfolding states approved_tables reviewed select select_all update matching decimal digits join
    Review.find Review.latest Review.get Review.insert_row Review.sort_rows Review.list_queue
    Review.proposal_count Review.insert_proposal Review.update_proposal Review.locked_proposal
    Review.owner Decisions.insert_audit Decisions.store_proposal Decisions.create_tx
    Decisions.created Decisions.create_owned Decisions.create Decisions.record_decision
    Decisions.decide_tx Decisions.store_approval Decisions.decide Decisions.record_correction
    Decisions.correct_tx Decisions.stored Decisions.correct Decisions.finalize_found
    Decisions.finalize Evidence.allowed_kind Evidence.put Evidence.validate_location
    Evidence.write_file Evidence.write_object Publication.sort_by Publication.insert_by
    Proposals.may_move Proposals.allowed_transitions run step
finalized_after = refl
