-- ===== src/Tests/Rules.antt =====
-- The rules of the domain package at concrete inputs.
use lineage_collection.Prelude.{◌≤◌, ◌≡◌, ◌↔◌, String, refl, true, none, List, [], ◌∷◌, length}
use lineage_collection.Database.Transaction.{ok}
use lineage_collection.Domain.Confidence.{single, high, derive_band, known_band}
use lineage_collection.Domain.Impact.{column_drop, band_order, severity_for}
use lineage_collection.Domain.Impact.Monotone.{severity_rank, evidence_raises_severity}
use lineage_collection.Domain.Proposals.{
  in_review, approved, finalized, Moves, stays, moves, may_move, allowed_transitions,
  proposal-Moves,
}
use lineage_collection.Domain.Liveness.{
  EdgeLiveness, unobserved, pos, derive_liveness, liveness_band, may_demote,
  derive_liveness-may_demote,
}

abbrev static_only : List String
static_only = "SCA" ∷ []

abbrev corroborated : List String
corroborated = "RUNTIME" ∷ "SCA" ∷ "SCA" ∷ []

bands_lem : (derive_band static_only ≡ ok single) × (derive_band corroborated ≡ ok high)
unfolding derive_band known_band
bands_lem = (refl, refl)

evidence_raises_severity_example :
    (band_order single ≤ band_order high)
    × (severity_rank (severity_for column_drop single)
        ≤ severity_rank (severity_for column_drop high))
evidence_raises_severity_example =
    evidence_raises_severity column_drop static_only corroborated single high refl bands_lem.0
      bands_lem.1

published_path : Moves in_review (approved ∷ finalized ∷ []) finalized
unfolding may_move allowed_transitions
published_path = moves refl (moves refl stays)

proposal-Moves_example :
    (length (approved ∷ finalized ∷ []) ≤ 2)
    × (finalized ≡ finalized → approved ∷ finalized ∷ [] ≡ approved ∷ finalized ∷ [])
proposal-Moves_example = proposal-Moves finalized (approved ∷ finalized ∷ []) published_path

abbrev silent : EdgeLiveness
silent = record {
  edge_key = "a->b";
  observations = 0;
  last_observed = none;
  band = unobserved;
  session_complete = true;
}

silent_lem : derive_liveness "a->b" (pos 0) none true ≡ ok silent
unfolding derive_liveness liveness_band
silent_lem = refl

derive_liveness-may_demote_example :
    (may_demote silent ≡ true) ↔ ((unobserved ≡ unobserved) × (true ≡ true))
derive_liveness-may_demote_example =
    derive_liveness-may_demote "a->b" (pos 0) none true silent silent_lem
