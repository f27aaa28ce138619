-- ===== src/Domain/Confidence.antt =====
-- `derive_band` of domain/confidence.py and the projection of domain/product_confidence.py.
-- A set of texts is a list that stands for its members: order and repetition do not count.
pub mod Table
use lineage_collection.Prelude.{
  ℕ, String, Bool, true, false, not, ◌&&◌, ◌||◌, Option, none, some, List, [], ◌∷◌, ◌==◌, any,
  if◌then◌else◌,
}
use lineage_collection.Database.Transaction.{Result, ok, err, value_error}

pub data Band : Type 0 where
  lowest single medium high highest : Band

abbrev pub all : (String → Bool) → List String → Bool
all p [] = true
all p (x ∷ xs) = p x && all p xs

abbrev pub member : String → List String → Bool
member x xs = any (λ y. y == x) xs

abbrev pub subset : List String → List String → Bool
subset xs ys = all (λ x. member x ys) xs

abbrev pub same_set : List String → List String → Bool
same_set xs ys = subset xs ys && subset ys xs

-- `len(xs) == 1` of a set
abbrev pub is_singleton : List String → Bool
is_singleton [] = false
is_singleton (x ∷ xs) = subset xs (x ∷ [])

abbrev pub is_empty : List String → Bool
is_empty [] = true
is_empty (x ∷ xs) = false

abbrev pub mechanisms : List String
mechanisms = "SCA" ∷ "LLM" ∷ "RUNTIME" ∷ []

-- The tests that follow the validation.
unfoldable pub known_band : List String → Band
known_band ms =
    if same_set ms ("LLM" ∷ [])
    then lowest
    else if is_singleton ms
    then single
    else if same_set ms ("SCA" ∷ "RUNTIME" ∷ [])
    then high
    else if same_set ms mechanisms
    then highest
    else medium

unfoldable pub derive_band : List String → Result Band
derive_band ms =
    if is_empty ms
    then err value_error
    else if not (subset ms mechanisms)
    then err value_error
    else ok (known_band ms)

pub data DisplayBand : Type 0 where
  verified probable inferred : DisplayBand

-- `_BAND_PROJECTION`
unfoldable pub band_projection : Band → DisplayBand × ℕ
band_projection highest = (verified, 96)
band_projection high = (verified, 92)
band_projection medium = (probable, 78)
band_projection single = (probable, 70)
band_projection lowest = (inferred, 55)
