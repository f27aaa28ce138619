-- ===== src/Review/History.antt =====
-- Histories of calls of ReviewService (services/review.py), by any reviewers with any lock versions. Between
-- the read of `finalize` and its UPDATE no other call is admitted.
use lineage_collection.Prelude.{ℕ, String, List, [], ◌∷◌}
use lineage_collection.Publication.Tables.{Edge}
use lineage_collection.Review.{ReviewTables, ProposalRow}
use lineage_collection.Review.Decisions
use lineage_collection.Review.Decisions.{Setup, Verdict}
use lineage_collection.Review.Effects.{
  Write, decide-Write, correct-Write, finalize-Write, create-Write,
}

pub data Call : Type 0 where
  creates : List Edge → String → String → ℕ → Call
  decides : Verdict → String → ℕ → String → String → ℕ → ℕ → Call
  corrects : String → ℕ → List Edge → String → String → ℕ → ℕ → Call
  finalizes : String → ℕ → ℕ → Call

module _ (setup : Setup) where
  unfoldable pub step : ReviewTables → Call → ReviewTables
  step t (creates edges base correlation_id now) =
      (Decisions.create setup edges base correlation_id now t).1
  step t (decides v id version actor rationale lock now) =
      (Decisions.decide setup v id version actor rationale lock now t).1
  step t (corrects id version edges actor rationale lock now) =
      (Decisions.correct setup id version edges actor rationale lock now t).1
  step t (finalizes id version now) = (Decisions.finalize id version now t).1

  unfoldable pub run : ReviewTables → List Call → ReviewTables
  run t [] = t
  run t (c ∷ cs) = run (step t c) cs

  pub step-Write : (t : ReviewTables) (c : Call) → Write t.proposals (step t c).proposals
  unfolding step
  step-Write t (creates edges base correlation_id now) =
      create-Write setup edges base correlation_id now t
  step-Write t (decides v id version actor rationale lock now) =
      decide-Write setup v id version actor rationale lock now t
  step-Write t (corrects id version edges actor rationale lock now) =
      correct-Write setup id version edges actor rationale lock now t
  step-Write t (finalizes id version now) = finalize-Write id version now t

  -- What every write keeps, every history keeps.
  pub run-keeps {ℓ} :
      (P : List ProposalRow → Type ℓ)
      → ((rows rows' : List ProposalRow) → Write rows rows' → P rows → P rows')
      → (t : ReviewTables) (cs : List Call) → P t.proposals
      → P (run t cs).proposals
  unfolding run
  run-keeps P keep t [] h = h
  run-keeps P keep t (c ∷ cs) h =
      run-keeps P keep (step t c) cs (keep t.proposals (step t c).proposals (step-Write t c) h)
