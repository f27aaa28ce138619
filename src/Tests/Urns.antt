-- ===== src/Tests/Urns.antt =====
-- Concrete URNs.
use mathlib.Core.Logic.{◌↔◌}
use lineage_collection.Prelude.{◌≡◌, refl, true, none, some, [], ◌∷◌, ◌++◌}
use lineage_collection.Domain.Urns
use lineage_collection.Domain.Urns.{Text, LineageUrn, is_valid, to_text, parse}
use lineage_collection.Domain.Urns.RoundTrip

abbrev urn : LineageUrn
urn = record {
  env = b'p' ∷ [];
  platform = b'k' ∷ b'f' ∷ [];
  system = b's' ∷ [];
  dataset = b'd' ∷ b'.' ∷ b't' ∷ [];
  element = some (b'i' ∷ b':' ∷ b'd' ∷ []);
}

abbrev text : Text
text =
    Urns.scheme
    ++ (b'p' ∷ b':' ∷ b'k' ∷ b'f' ∷ b':' ∷ b's' ∷ b':' ∷ b'd' ∷ b'.' ∷ b't' ∷ b'#' ∷ b'i' ∷ b':'
        ∷ b'd' ∷ [])

parses : parse text ≡ some urn
unfolding parse Urns.strip Urns.field Urns.span Urns.dataset_part Urns.new_urn is_valid
parses = refl

refuses_colon :
    parse (Urns.scheme ++ (b'p' ∷ b':' ∷ b'k' ∷ b':' ∷ b's' ∷ b':' ∷ b'd' ∷ b':' ∷ [])) ≡ none
unfolding parse Urns.strip Urns.field Urns.span Urns.dataset_part Urns.new_urn is_valid
refuses_colon = refl

parse-iff-to_text_example : (parse text ≡ some urn) ↔ ((is_valid urn ≡ true) × (to_text urn ≡ text))
parse-iff-to_text_example = RoundTrip.parse-iff-to_text text urn
