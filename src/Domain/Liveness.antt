-- ===== src/Domain/Liveness.antt =====
-- services/liveness.py: how often an edge was observed. The count is a Python integer; the check that
-- it is not negative is the sign of `ℤ`.
use lineage_collection.Prelude.{
  ℕ, String, ◌≡◌, ◌↔◌, Bool, true, false, ◌&&◌, Option, none, some, arith, leb, eqb, if◌then◌else◌,
}
use lineage_collection.Database.Transaction.{Result, ok, err, value_error}
use lineage_collection.Domain.Confidence.{Band}

pub data LivenessBand : Type 0 where
  hot warm cold unobserved : LivenessBand

pub record EdgeLiveness : Type 0 where
  pub edge_key : String
  pub observations : ℕ
  pub last_observed : Option String
  pub band : LivenessBand
  pub session_complete : Bool

-- `_band`
unfoldable pub liveness_band : ℕ → LivenessBand
liveness_band observations =
    if leb 100 observations
    then hot
    else if leb 10 observations
    then warm
    else if leb 1 observations
    then cold
    else unobserved

-- A Python integer: `pos n` is n, and `negsuc n` is -(n+1).
pub data ℤ : Type 0 where
  pos negsuc : ℕ → ℤ

abbrev pub is_none : Option String → Bool
is_none none = true
is_none (some _) = false

unfoldable pub derive_liveness : String → ℤ → Option String → Bool → Result EdgeLiveness
derive_liveness edge_key (negsuc n) last_observed session_complete = err value_error
derive_liveness edge_key (pos observations) last_observed session_complete =
    if leb 1 observations && is_none last_observed
    then err value_error
    else ok (record {
      edge_key = edge_key;
      observations = observations;
      last_observed = last_observed;
      band = liveness_band observations;
      session_complete = session_complete;
    })

unfoldable pub may_demote : EdgeLiveness → Bool
may_demote l = l.session_complete && eqb l.observations 0

unfoldable pub demoted_band : Band → EdgeLiveness → Band
demoted_band band l = band

-- A verdict that may demote is one whose band is UNOBSERVED in a complete session, whatever was
-- derived; an edge with an observation never demotes.
pub derive_liveness-may_demote :
    (edge_key : String) (count : ℤ) (last_observed : Option String) (complete : Bool)
    (l : EdgeLiveness)
    → derive_liveness edge_key count last_observed complete ≡ ok l
    → (may_demote l ≡ true) ↔ ((l.band ≡ unobserved) × (complete ≡ true))
unfolding derive_liveness may_demote liveness_band
derive_liveness-may_demote edge_key (pos n) last_observed complete l e =
    (λ h. ground arith, λ h. ground arith)
derive_liveness-may_demote edge_key (negsuc n) last_observed complete l e = absurd (ground arith)
