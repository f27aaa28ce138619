-- ===== src/Domain/Confidence/Table.antt =====
-- The bands of `derive_band` (domain/confidence.py) as a table on the three mechanisms.
use lineage_collection.Prelude.{
  String, ◌≡◌, refl, sym, ap, ◌∙◌, ◌⊎◌, inl, inr, Bool, true, false, not, ◌&&◌, ◌||◌, Option, List,
  [], ◌∷◌, arith, eq_iff, ◌==◌, if◌then◌else◌, Bool-cases,
}
use lineage_collection.Database.Transaction.{ok}
use lineage_collection.Domain.Confidence.{
  Band, lowest, single, medium, high, highest, member, subset, is_singleton, is_empty, mechanisms,
  known_band, derive_band,
}

-- The band of a set by its members among SCA, LLM and RUNTIME.
abbrev pub table : Bool → Bool → Bool → Option Band
table false false false = Option.none
table false true false = Option.some lowest
table true false false = Option.some single
table false false true = Option.some single
table true true false = Option.some medium
table false true true = Option.some medium
table true false true = Option.some high
table true true true = Option.some highest

known_cases :
    (m : String) → member m mechanisms ≡ true → (m ≡ "SCA") ⊎ (m ≡ "LLM") ⊎ (m ≡ "RUNTIME")
known_cases m h = elim (Bool-cases ("SCA" == m)) [
  | inl sca ↦ inl (sym ((eq_iff "SCA" m).0 sca))
  | inr not_sca ↦ elim (Bool-cases ("LLM" == m)) [
    | inl llm ↦ inr (inl (sym ((eq_iff "LLM" m).0 llm)))
    | inr not_llm ↦ inr (inr (sym ((eq_iff "RUNTIME" m).0 (ground arith))))
  ]
]

-- A set of known mechanisms lies within `xs` when it has no mechanism outside of it.
within :
    (ms xs : List String)
    → subset ms mechanisms ≡ true
    → subset ms xs ≡ (
        (not (member "SCA" ms) || member "SCA" xs)
        && ((not (member "LLM" ms) || member "LLM" xs)
            && (not (member "RUNTIME" ms) || member "RUNTIME" xs)))
within [] xs known = refl
within (m ∷ ms) xs known = elim (known_cases m (ground arith)) [
  | inl sca ↦ rw (sca, within ms xs (ground arith)) (ground arith)
  | inr (inl llm) ↦ rw (llm, within ms xs (ground arith)) (ground arith)
  | inr (inr runtime) ↦ rw (runtime, within ms xs (ground arith)) (ground arith)
]

abbrev one_of : Bool → Bool → Bool → Bool
one_of true false false = true
one_of false true false = true
one_of false false true = true
one_of _ _ _ = false

singleton-one_of :
    (ms : List String)
    → subset ms mechanisms ≡ true
    → is_singleton ms ≡ one_of (member "SCA" ms) (member "LLM" ms) (member "RUNTIME" ms)
singleton-one_of [] known = refl
singleton-one_of (m ∷ ms) known = elim (known_cases m (ground arith)) [
  | inl sca ↦ rw (sca, within ms ("SCA" ∷ []) (ground arith)) (ground arith)
  | inr (inl llm) ↦ rw (llm, within ms ("LLM" ∷ []) (ground arith)) (ground arith)
  | inr (inr runtime) ↦ rw (runtime, within ms ("RUNTIME" ∷ []) (ground arith)) (ground arith)
]

some_mechanism :
    (ms : List String)
    → is_empty ms ≡ false
    → subset ms mechanisms ≡ true
    → (member "SCA" ms || (member "LLM" ms || member "RUNTIME" ms)) ≡ true
some_mechanism [] h known = absurd (ground arith)
some_mechanism (m ∷ ms) h known = elim (known_cases m (ground arith)) [
  | inl sca ↦ rw sca (ground arith)
  | inr (inl llm) ↦ rw llm (ground arith)
  | inr (inr runtime) ↦ rw runtime (ground arith)
]

-- The band of a non-empty set of known mechanisms is the one of the table.
known_band-table :
    (ms : List String)
    → is_empty ms ≡ false
    → subset ms mechanisms ≡ true
    → table (member "SCA" ms) (member "LLM" ms) (member "RUNTIME" ms) ≡ Option.some (known_band ms)
unfolding known_band
known_band-table ms some_member known =
    rw
      (
        within ms ("LLM" ∷ []) known,
        singleton-one_of ms known,
        within ms ("SCA" ∷ "RUNTIME" ∷ []) known,
        within ms mechanisms known,
      )
      (by_members (member "SCA" ms) (member "LLM" ms) (member "RUNTIME" ms)
        (some_mechanism ms some_member known))
  where
    by_members :
        (a b c : Bool)
        → (a || (b || c)) ≡ true
        → table a b c
          ≡ Option.some (
              if ((not a || false) && ((not b || true) && (not c || false))) && (b && true)
              then lowest
              else if one_of a b c
              then single
              else if ((not a || true) && ((not b || false) && (not c || true)))
                  && (a && (c && true))
              then high
              else if ((not a || true) && ((not b || true) && (not c || true)))
                  && (a && (b && (c && true)))
              then highest
              else medium)
    by_members true true true h = refl
    by_members true true false h = refl
    by_members true false true h = refl
    by_members true false false h = refl
    by_members false true true h = refl
    by_members false true false h = refl
    by_members false false true h = refl
    by_members false false false h = absurd (ground arith)

-- A derived band is the one of the table, and the set is one of known mechanisms.
pub derive_band-table :
    (ms : List String) (b : Band)
    → derive_band ms ≡ ok b
    → (subset ms mechanisms ≡ true)
      × (table (member "SCA" ms) (member "LLM" ms) (member "RUNTIME" ms) ≡ Option.some b)
unfolding derive_band
derive_band-table ms b e =
    let some_member : is_empty ms ≡ false = ground arith in
    let known : subset ms mechanisms ≡ true = ground arith in
    (known, known_band-table ms some_member known ∙ ap Option.some (ground arith))

-- A member of a subset is a member of the set.
pub subset-member :
    (x : String) (ms ns : List String)
    → subset ms ns ≡ true
    → member x ms ≡ true
    → member x ns ≡ true
subset-member x [] ns h m = absurd (ground arith)
subset-member x (y ∷ ms) ns h m = elim (Bool-cases (y == x)) [
  | inl same ↦ rw (← (eq_iff y x).0 same) (ground arith)
  | inr different ↦ subset-member x ms ns (ground arith) (ground arith)
]
