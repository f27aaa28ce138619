-- ===== src/Evidence.antt =====
-- `EvidenceStore.put` of services/evidence_store.py: immutable objects, each a file and a row of the
-- table `evidence_objects`. A body stands here as its SHA-256 checksum, which is what `put` compares.
-- pathlib's reading of a key is the parameter `paths`: whether it is relative, without `..` and `.`, and
-- stays under the root, and the path that it names, which several keys may share.
pub mod Immutable
use lineage_collection.Prelude.{
  String, Bool, not, ◌&&◌, Option, none, some, List, [], ◌∷◌, ◌++◌, ◌==◌, any, nonempty, select,
  if◌then◌else◌,
}
use lineage_collection.Database.Transaction.{
  Result, ok, err, overwrite_attempt, unknown_evidence_kind, invalid_evidence_key,
}

pub record EvidenceRef : Type 0 where
  pub kind : String
  pub key : String
  pub checksum : String
  pub schema_version : String

pub record KeyPaths : Type 0 where
  pub is_safe : String → Bool
  pub path_of : String → String

-- A file under the root, in the directory of its kind.
pub record EvidenceFile : Type 0 where
  pub kind : String
  pub path : String
  pub checksum : String

pub record EvidenceStore : Type 0 where
  pub files : List EvidenceFile
  pub objects : List EvidenceRef

abbrev pub empty_store : EvidenceStore
empty_store = record { files = []; objects = [] }

-- `ALLOWED_KINDS`
unfoldable pub allowed_kind : String → Bool
allowed_kind kind =
    any (λ k. k == kind)
      ("approval" ∷ "catalog-snapshot" ∷ "llm" ∷ "llm-reject" ∷ "manifest" ∷ "proposal"
        ∷ "quarantine" ∷ "runtime" ∷ "sca" ∷ [])

abbrev pub file_at : String → String → EvidenceFile → Bool
file_at kind path f = f.kind == kind && f.path == path

abbrev pub object_at : String → String → EvidenceRef → Bool
object_at kind key r = r.kind == kind && r.key == key

-- The file is written, or the one that exists has the checksum.
unfoldable pub write_file :
    EvidenceRef → String → Option EvidenceFile → EvidenceStore → Result EvidenceStore
write_file r path none s = ok (record s {
  files = s.files ++ record { kind = r.kind; path = path; checksum = r.checksum } ∷ [];
})
write_file r path (some f) s = if f.checksum == r.checksum then ok s else err overwrite_attempt

-- INSERT OR IGNORE, after the check of an existing row
unfoldable pub write_object :
    EvidenceRef → Option EvidenceRef → EvidenceStore → Result EvidenceStore
write_object r none s = ok (record s { objects = s.objects ++ r ∷ [] })
write_object r (some o) s = if o.checksum == r.checksum then ok s else err overwrite_attempt

module _ (paths : KeyPaths) where
  -- `_validate_location`
  unfoldable pub validate_location : EvidenceRef → Result EvidenceRef
  validate_location r =
      if not (allowed_kind r.kind)
      then err unknown_evidence_kind
      else if nonempty r.key && paths.is_safe r.key
      then ok r
      else err invalid_evidence_key

  -- The file comes first, and stays if the transaction on the table raises.
  unfoldable pub put : EvidenceRef → EvidenceStore → Result EvidenceRef × EvidenceStore
  put r s = elim (validate_location r) [
    | err e ↦ (err e, s)
    | ok _ ↦
        elim (write_file r (paths.path_of r.key)
          (select (file_at r.kind (paths.path_of r.key)) s.files) s) [
            | err e ↦ (err e, s)
            | ok written ↦
                elim (write_object r (select (object_at r.kind r.key) written.objects) written) [
                  | err e ↦ (err e, written)
                  | ok stored ↦ (ok r, stored)
                ]
          ]
  ]
