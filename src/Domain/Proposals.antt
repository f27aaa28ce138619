-- ===== src/Domain/Proposals.antt =====
-- The states of a proposal in domain/proposals.py.
use mathlib.Core.Path.{subst}
use lineage_collection.Prelude.{
  ℕ, ◌+◌, ◌≤◌, ◌≡◌, refl, ap, Bool, true, List, [], ◌∷◌, length, arith, eqb, any,
}

pub data ProposalState : Type 0 where
  in_review approved rejected superseded finalized : ProposalState

-- `TRANSITIONS`
unfoldable pub allowed_transitions : ProposalState → List ProposalState
allowed_transitions in_review = approved ∷ rejected ∷ superseded ∷ []
allowed_transitions approved = finalized ∷ []
allowed_transitions rejected = []
allowed_transitions superseded = []
allowed_transitions finalized = []

abbrev pub state_code : ProposalState → ℕ
state_code in_review = 0
state_code approved = 1
state_code rejected = 2
state_code superseded = 3
state_code finalized = 4

-- `assert_transition` raises unless this is true.
unfoldable pub may_move : ProposalState → ProposalState → Bool
may_move current requested =
    any (λ s. eqb (state_code s) (state_code requested)) (allowed_transitions current)

-- The states that a proposal runs through when each move is asserted.
pub data Moves : ProposalState → List ProposalState → ProposalState → Type 0 where
  stays : {s : ProposalState} → Moves s [] s
  moves :
      {s t u : ProposalState} {path : List ProposalState}
      → may_move s t ≡ true
      → Moves t path u
      → Moves s (t ∷ path) u

-- The moves that are left from a state.
abbrev moves_left : ProposalState → ℕ
moves_left in_review = 2
moves_left approved = 1
moves_left _ = 0

move_lem : (s t : ProposalState) → may_move s t ≡ true → moves_left t + 1 ≤ moves_left s
unfolding may_move allowed_transitions
move_lem in_review in_review h = absurd (ground arith)
move_lem in_review approved h = ground arith
move_lem in_review rejected h = ground arith
move_lem in_review superseded h = ground arith
move_lem in_review finalized h = absurd (ground arith)
move_lem approved in_review h = absurd (ground arith)
move_lem approved approved h = absurd (ground arith)
move_lem approved rejected h = absurd (ground arith)
move_lem approved superseded h = absurd (ground arith)
move_lem approved finalized h = ground arith
move_lem rejected _ h = absurd (ground arith)
move_lem superseded _ h = absurd (ground arith)
move_lem finalized _ h = absurd (ground arith)

path_bounded :
    {s u : ProposalState} {path : List ProposalState}
    → Moves s path u
    → length path + moves_left u ≤ moves_left s
path_bounded stays = omega arith
path_bounded (moves {s} {t} h m) = omega (arith, move_lem s t h, path_bounded m)

-- How a state that ends in FINALIZED gets there.
abbrev ToFinalized : ProposalState → List ProposalState → Type 0
ToFinalized in_review path = path ≡ approved ∷ finalized ∷ []
ToFinalized approved path = path ≡ finalized ∷ []
ToFinalized finalized path = path ≡ []
ToFinalized _ path = ⊥

prepend :
    (s t : ProposalState) (path : List ProposalState)
    → may_move s t ≡ true
    → ToFinalized t path
    → ToFinalized s (t ∷ path)
unfolding may_move allowed_transitions
prepend in_review in_review path h p = absurd (ground arith)
prepend in_review approved path h p = ap (λ q. approved ∷ q) p
prepend in_review rejected path h p = absurd p
prepend in_review superseded path h p = absurd p
prepend in_review finalized path h p = absurd (ground arith)
prepend approved in_review path h p = absurd (ground arith)
prepend approved approved path h p = absurd (ground arith)
prepend approved rejected path h p = absurd p
prepend approved superseded path h p = absurd p
prepend approved finalized path h p = ap (λ q. finalized ∷ q) p
prepend rejected _ path h p = absurd (ground arith)
prepend superseded _ path h p = absurd (ground arith)
prepend finalized _ path h p = absurd (ground arith)

finalized_by :
    {s : ProposalState} {path : List ProposalState} → Moves s path finalized → ToFinalized s path
finalized_by stays = refl
finalized_by (moves {s} {t} {path = path} h m) = prepend s t path h (finalized_by m)

-- A proposal moves at most twice; one that is finalized was in review, approved, and then finalized.
pub proposal-Moves :
    (u : ProposalState) (path : List ProposalState)
    → Moves in_review path u
    → (length path ≤ 2) × (u ≡ finalized → path ≡ approved ∷ finalized ∷ [])
proposal-Moves u path m =
    (omega (arith, path_bounded m), λ e. finalized_by (subst (λ v. Moves in_review path v) e m))
