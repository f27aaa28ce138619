-- ===== src/Tests/Evidences.antt =====
-- Concrete stores for services/evidence_store.py.
use lineage_collection.Prelude.{String, true, ◌≡◌, refl, [], ◌∷◌, select}
use lineage_collection.Database.Transaction.{err, overwrite_attempt}
use lineage_collection.Evidence
use lineage_collection.Evidence.{KeyPaths, EvidenceRef, EvidenceStore, empty_store, put}
use lineage_collection.Evidence.Immutable.{put_all, stored_for_good}

abbrev any_key : KeyPaths
any_key = record { is_safe = λ _. true; path_of = λ k. k }

abbrev object_of : String → String → EvidenceRef
object_of key checksum = record {
  kind = "sca";
  key = key;
  checksum = checksum;
  schema_version = "1";
}

abbrev first : EvidenceRef
first = object_of "a.json" "11"

abbrev other : EvidenceRef
other = object_of "a.json" "22"

abbrev elsewhere : EvidenceRef
elsewhere = object_of "b.json" "22"

-- After another object and a refused write, the place still refuses another body.
stored_for_good_example :
    put any_key other (put_all any_key (put any_key first empty_store).1 (elsewhere ∷ other ∷ []))
    ≡ (
      err overwrite_attempt,
      put_all any_key (put any_key first empty_store).1 (elsewhere ∷ other ∷ []),
    )
unfolding select Evidence.put Evidence.allowed_kind Evidence.validate_location Evidence.write_file
    Evidence.write_object
stored_for_good_example =
    stored_for_good any_key first first other empty_store (put any_key first empty_store).1
      (elsewhere ∷ other ∷ []) refl refl refl
