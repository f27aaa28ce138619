-- ===== src/Evidence/Immutable.antt =====
-- Objects of EvidenceStore (services/evidence_store.py) through later calls of `put`.
use mathlib.Core.List.{append-nil, append_assoc}
use mathlib.Core.Path.{subst}
use lineage_collection.Prelude.{
  String, true, false, ◌&&◌, ◌≡◌, refl, sym, ap, ◌∙◌, inl, inr, Option, none, some, List, [], ◌∷◌,
  ◌++◌, ◌==◌, select, nonempty, if◌then◌else◌, select-append_some, select-append, arith, Bool-cases,
  eq_iff, eq_refl,
}
use lineage_collection.Database.Transaction.{ok, err, overwrite_attempt, Result-cases}
use lineage_collection.Evidence.{
  KeyPaths, EvidenceRef, EvidenceFile, EvidenceStore, allowed_kind, file_at, object_at, write_file,
  write_object, validate_location, put,
}

-- Both places of the kind and key have the checksum.
pub record Holds (path : String) (r : EvidenceRef) (s : EvidenceStore) : Type 0 where
  pub file : EvidenceFile
  pub object : EvidenceRef
  pub file_found : select (file_at r.kind path) s.files ≡ some file
  pub object_found : select (object_at r.kind r.key) s.objects ≡ some object
  pub file_sum : file.checksum ≡ r.checksum
  pub object_sum : object.checksum ≡ r.checksum

-- What a write leaves: the rows from before, first.
record Grows (s s' : EvidenceStore) : Type 0 where
  files : List EvidenceFile
  objects : List EvidenceRef
  all_files : s'.files ≡ s.files ++ files
  all_objects : s'.objects ≡ s.objects ++ objects

Grows-Holds :
    (path : String) (r : EvidenceRef) (s s' : EvidenceStore)
    → Grows s s'
    → Holds path r s
    → Holds path r s'
Grows-Holds path r s s' g h = record {
  file = h.file;
  object = h.object;
  file_found =
      ap (select (file_at r.kind path)) g.all_files
      ∙ select-append_some (file_at r.kind path) s.files g.files h.file h.file_found;
  object_found =
      ap (select (object_at r.kind r.key)) g.all_objects
      ∙ select-append_some (object_at r.kind r.key) s.objects g.objects h.object h.object_found;
  file_sum = h.file_sum;
  object_sum = h.object_sum;
}

Grows-refl : (s : EvidenceStore) → Grows s s
Grows-refl s = record {
  files = [];
  objects = [];
  all_files = sym (append-nil s.files);
  all_objects = sym (append-nil s.objects);
}

write_file-Grows :
    (r : EvidenceRef) (path : String) (row : Option EvidenceFile) (s s' : EvidenceStore)
    → write_file r path row s ≡ ok s'
    → Grows s s'
unfolding write_file
write_file-Grows r path none s s' e = record {
  files = record { kind = r.kind; path = path; checksum = r.checksum } ∷ [];
  objects = [];
  all_files = ground arith;
  all_objects = ground arith ∙ sym (append-nil s.objects);
}
write_file-Grows r path (some f) s s' e = elim (Bool-cases (f.checksum == r.checksum)) [
  | inl same ↦ let stays : s ≡ s' = ground (arith, same, e) in subst (Grows s) stays (Grows-refl s)
  | inr other ↦ absurd (ground (arith, other, e))
]

write_object-Grows :
    (r : EvidenceRef) (row : Option EvidenceRef) (s s' : EvidenceStore)
    → write_object r row s ≡ ok s'
    → Grows s s'
unfolding write_object
write_object-Grows r none s s' e = record {
  files = [];
  objects = r ∷ [];
  all_files = ground arith ∙ sym (append-nil s.files);
  all_objects = ground arith;
}
write_object-Grows r (some o) s s' e = elim (Bool-cases (o.checksum == r.checksum)) [
  | inl same ↦ let stays : s ≡ s' = ground (arith, same, e) in subst (Grows s) stays (Grows-refl s)
  | inr other ↦ absurd (ground (arith, other, e))
]

Grows-trans : (a b c : EvidenceStore) → Grows a b → Grows b c → Grows a c
Grows-trans a b c x y = record {
  files = x.files ++ y.files;
  objects = x.objects ++ y.objects;
  all_files =
      y.all_files ∙ ap (λ l. l ++ y.files) x.all_files ∙ append_assoc a.files x.files y.files;
  all_objects =
      y.all_objects
      ∙ ap (λ l. l ++ y.objects) x.all_objects
      ∙ append_assoc a.objects x.objects y.objects;
}

-- What is found at the place that was written.
written_file :
    (r : EvidenceRef) (path : String) (row : Option EvidenceFile) (s s' : EvidenceStore)
    → select (file_at r.kind path) s.files ≡ row
    → write_file r path row s ≡ ok s'
    → (f : EvidenceFile) × (select (file_at r.kind path) s'.files ≡ some f)
      × (f.checksum ≡ r.checksum)
unfolding write_file
written_file r path none s s' found e =
    let new : EvidenceFile = record { kind = r.kind; path = path; checksum = r.checksum } in
    let table : s'.files ≡ s.files ++ new ∷ [] = ground arith in
    (
      new,
      ap (select (file_at r.kind path)) table
          ∙ select-append (file_at r.kind path) s.files new found
          ∙ (rw (eq_refl r.kind) (rw (eq_refl path) refl)),
      refl,
    )
written_file r path (some f) s s' found e = elim (Bool-cases (f.checksum == r.checksum)) [
  | inl same ↦
      let stays : s ≡ s' = ground (arith, same, e) in
      (
        f,
        ap (λ (t : EvidenceStore). select (file_at r.kind path) t.files) (sym stays) ∙ found,
        (eq_iff f.checksum r.checksum).0 same,
      )
  | inr other ↦ absurd (ground (arith, other, e))
]

written_object :
    (r : EvidenceRef) (row : Option EvidenceRef) (s s' : EvidenceStore)
    → select (object_at r.kind r.key) s.objects ≡ row
    → write_object r row s ≡ ok s'
    → (o : EvidenceRef) × (select (object_at r.kind r.key) s'.objects ≡ some o)
      × (o.checksum ≡ r.checksum)
      × (s'.files ≡ s.files)
unfolding write_object
written_object r none s s' found e =
    let table : s'.objects ≡ s.objects ++ r ∷ [] = ground arith in
    (
      r,
      ap (select (object_at r.kind r.key)) table
          ∙ select-append (object_at r.kind r.key) s.objects r found
          ∙ (rw (eq_refl r.kind) (rw (eq_refl r.key) refl)),
      refl,
      ground arith,
    )
written_object r (some o) s s' found e = elim (Bool-cases (o.checksum == r.checksum)) [
  | inl same ↦
      let stays : s ≡ s' = ground (arith, same, e) in
      (
        o,
        ap (λ (t : EvidenceStore). select (object_at r.kind r.key) t.objects) (sym stays) ∙ found,
        (eq_iff o.checksum r.checksum).0 same,
        ap (λ (t : EvidenceStore). t.files) (sym stays),
      )
  | inr other ↦ absurd (ground (arith, other, e))
]

module _ (paths : KeyPaths) where
  -- The three outcomes of a `put`: refused, refused at the file or at the row, or stored.
  put-Grows : (r : EvidenceRef) (s : EvidenceStore) → Grows s (put paths r s).1
  unfolding put
  put-Grows r s = elim (Result-cases (validate_location paths r)) [
    | inr (x, refused) ↦ rw (refused, put) (Grows-refl s)
    | inl (v, valid) ↦
        elim (Result-cases (
          write_file r (paths.path_of r.key) (select (file_at r.kind (paths.path_of r.key)) s.files)
            s)) [
              | inr (x, refused) ↦ rw (valid, put) (rw (refused) (Grows-refl s))
              | inl (s1, written) ↦
                  let first =
                    write_file-Grows r (paths.path_of r.key)
                      (select (file_at r.kind (paths.path_of r.key)) s.files) s s1 written in
                  elim (Result-cases
                    (write_object r (select (object_at r.kind r.key) s1.objects) s1)) [
                      | inr (x, refused) ↦ rw (valid, put) (rw (written) (rw (refused) first))
                      | inl (s2, stored) ↦
                          rw (valid, put)
                            (rw (written) (
                              rw (stored) (
                                Grows-trans s s1 s2 first (
                                  write_object-Grows r (select (object_at r.kind r.key) s1.objects)
                                    s1 s2 stored))))
                    ]
            ]
  ]

  put_ok :
      (r v : EvidenceRef) (s s' : EvidenceStore)
      → put paths r s ≡ (ok v, s')
      → Holds (paths.path_of r.key) r s' × ((w : EvidenceRef) × (validate_location paths r ≡ ok w))
  unfolding put
  put_ok r v s s' e = elim (Result-cases (validate_location paths r)) [
    | inr (x, refused) ↦ absurd (ground (arith, refused, e))
    | inl (w, valid) ↦
        elim (Result-cases (
          write_file r (paths.path_of r.key) (select (file_at r.kind (paths.path_of r.key)) s.files)
            s)) [
              | inr (x, refused) ↦ absurd (ground (arith, valid, refused, e))
              | inl (s1, written) ↦
                  elim (Result-cases
                    (write_object r (select (object_at r.kind r.key) s1.objects) s1)) [
                      | inr (x, refused) ↦ absurd (ground (arith, valid, written, refused, e))
                      | inl (s2, stored) ↦
                          let same : s2 ≡ s' = ground (arith, valid, written, stored, e) in
                          let (f, file_found, file_sum) =
                            written_file r (paths.path_of r.key)
                              (select (file_at r.kind (paths.path_of r.key)) s.files) s s1 refl
                              written in
                          let (o, object_found, object_sum, kept) =
                            written_object r (select (object_at r.kind r.key) s1.objects) s1 s2 refl
                              stored in
                          (
                            subst (Holds (paths.path_of r.key) r) same (record {
                              file = f;
                              object = o;
                              file_found =
                                  ap (select (file_at r.kind (paths.path_of r.key))) kept
                                  ∙ file_found;
                              object_found = object_found;
                              file_sum = file_sum;
                              object_sum = object_sum;
                            }),
                            (w, valid),
                          )
                    ]
            ]
  ]

  unfoldable pub put_all : EvidenceStore → List EvidenceRef → EvidenceStore
  put_all s [] = s
  put_all s (r ∷ rs) = put_all (put paths r s).1 rs

  validate_location-same :
      (r w q : EvidenceRef)
      → validate_location paths r ≡ ok w
      → q.kind ≡ r.kind
      → q.key ≡ r.key
      → validate_location paths q ≡ ok q
  unfolding validate_location
  validate_location-same r w q valid kind key = elim (Bool-cases (allowed_kind r.kind)) [
    | inr refused ↦ absurd (ground (arith, refused, valid))
    | inl allowed ↦ elim (Bool-cases (nonempty r.key && paths.is_safe r.key)) [
      | inr refused ↦ absurd (ground (arith, allowed, refused, valid))
      | inl safe ↦ rw (kind, key) (rw (allowed, safe) refl)
    ]
  ]

  -- A `put` at a place that is written tests the checksum.
  put-Holds :
      (q : EvidenceRef) (s : EvidenceStore)
      → Holds (paths.path_of q.key) q s
      → validate_location paths q ≡ ok q
      → put paths q s ≡ (ok q, s)
  unfolding put write_file write_object
  put-Holds q s h valid =
      let file_same : (h.file.checksum == q.checksum) ≡ true =
        (eq_iff h.file.checksum q.checksum).1 h.file_sum in
      let object_same : (h.object.checksum == q.checksum) ≡ true =
        (eq_iff h.object.checksum q.checksum).1 h.object_sum in
      rw (valid, put)
        (rw (h.file_found) (rw (file_same) (rw (h.object_found) (rw (object_same) refl))))

  put-refused :
      (q : EvidenceRef) (s : EvidenceStore) (f : EvidenceFile)
      → select (file_at q.kind (paths.path_of q.key)) s.files ≡ some f
      → (f.checksum == q.checksum) ≡ false
      → validate_location paths q ≡ ok q
      → put paths q s ≡ (err overwrite_attempt, s)
  unfolding put write_file
  put-refused q s f found differs valid = rw (valid, put) (rw (found) (rw (differs) refl))

  put_all-Holds :
      (r : EvidenceRef) (s : EvidenceStore) (rs : List EvidenceRef)
      → Holds (paths.path_of r.key) r s
      → Holds (paths.path_of r.key) r (put_all s rs)
  unfolding put_all
  put_all-Holds r s [] h = h
  put_all-Holds r s (q ∷ rs) h =
      put_all-Holds r (put paths q s).1 rs
        (Grows-Holds (paths.path_of r.key) r s (put paths q s).1 (put-Grows q s) h)

  -- After an object has been stored, and any further calls of `put`: storing the same body under its kind
  -- and key again returns the reference, storing another body there raises OVERWRITE_ATTEMPT, and neither
  -- changes the store.
  pub stored_for_good :
      (r v q : EvidenceRef) (s s' : EvidenceStore) (rs : List EvidenceRef)
      → put paths r s ≡ (ok v, s')
      → q.kind ≡ r.kind
      → q.key ≡ r.key
      → put paths q (put_all s' rs)
        ≡ ((if q.checksum == r.checksum then ok q else err overwrite_attempt), put_all s' rs)
  stored_for_good r v q s s' rs e kind key =
      let x = put_ok r v s s' e in
      let h = put_all-Holds r s' rs x.0 in
      let valid = validate_location-same r x.1.0 q x.1.1 kind key in
      let file_found : select (file_at q.kind (paths.path_of q.key)) (put_all s' rs).files
          ≡ some h.file =
        rw (kind, key) h.file_found in
      let object_found : select (object_at q.kind q.key) (put_all s' rs).objects ≡ some h.object =
        rw (kind, key) h.object_found in
      elim (Bool-cases (q.checksum == r.checksum)) [
        | inl same ↦
            let sum = (eq_iff q.checksum r.checksum).0 same in
            rw (same) (
              put-Holds q (put_all s' rs)
                (record {
                  file = h.file;
                  object = h.object;
                  file_found = file_found;
                  object_found = object_found;
                  file_sum = h.file_sum ∙ sym sum;
                  object_sum = h.object_sum ∙ sym sum;
                })
                valid)
        | inr other ↦
            let differs : (h.file.checksum == q.checksum) ≡ false =
              elim (Bool-cases (h.file.checksum == q.checksum)) [
                | inr refused ↦ refused
                | inl taken ↦
                    let same =
                      (eq_iff q.checksum r.checksum).1
                        (sym ((eq_iff h.file.checksum q.checksum).0 taken) ∙ h.file_sum) in
                    absurd (ground (arith, same, other))
              ] in
            rw (other) (put-refused q (put_all s' rs) h.file file_found differs valid)
      ]
