-- ===== src/Domain/Urns/RoundTrip.antt =====
-- Printing and parsing of LineageUrn (domain/urns.py).
use mathlib.Core.List.{append-nil, append_assoc}
use lineage_collection.Prelude.{
  ℕ, Bool, true, false, ◌≡◌, ◌↔◌, refl, sym, ap, ◌∙◌, inl, inr, Option, none, some, [], ◌∷◌, ◌++◌,
  eqb, arith, Bool-cases,
}
use lineage_collection.Domain.Urns.{
  Text, colon, hash, LineageUrn, is_in, is_component, is_element, is_valid, new_urn, scheme,
  dataset_urn, element_text, to_text, span, ends_field, is_hash, after_colon, field, strip,
  dataset_end, dataset_part, ◌>>=◌, parse,
}

-- No character of the text is in the class.
abbrev Free : (ℕ → Bool) → Text → Type 0
Free stop [] = Unit {0}
Free stop (c ∷ s) = (stop c ≡ false) × Free stop s

span-append :
    (stop : ℕ → Bool) (s : Text) (c : ℕ) (rest : Text)
    → Free stop s
    → stop c ≡ true
    → span stop (s ++ (c ∷ rest)) ≡ (s, c ∷ rest)
unfolding span
span-append stop [] c rest free e = rw e refl
span-append stop (d ∷ s) c rest free e =
    let ih = span-append stop s c rest free.1 e in rw (free.0) (rw ih refl)

span-all : (stop : ℕ → Bool) (s : Text) → Free stop s → span stop s ≡ (s, [])
unfolding span
span-all stop [] free = refl
span-all stop (d ∷ s) free = let ih = span-all stop s free.1 in rw (free.0) (rw ih refl)

-- The parts of a span: they make up the text, the first is free of the class, and the rest begins in it.
abbrev Begins : (ℕ → Bool) → Text → Type 0
Begins stop [] = Unit {0}
Begins stop (c ∷ s) = stop c ≡ true

span_parts :
    (stop : ℕ → Bool) (s : Text)
    → ((span stop s).0 ++ (span stop s).1 ≡ s)
      × Free stop (span stop s).0
      × Begins stop (span stop s).1
unfolding span
span_parts stop [] = (refl, tt, tt)
span_parts stop (c ∷ s) = elim (Bool-cases (stop c)) [
  | inl hit ↦ rw hit (refl, tt, hit)
  | inr miss ↦
      let (whole, free, begins) = span_parts stop s in
      rw miss (ap (λ t. c ∷ t) whole, (miss, free), begins)
]

not_in-Free : (c : ℕ) (s : Text) → is_in c s ≡ false → Free (λ x. eqb x c) s
not_in-Free c [] h = tt
not_in-Free c (d ∷ s) h = (ground arith, not_in-Free c s (ground arith))

component-Free : (s : Text) → is_component s ≡ true → Free ends_field s
component-Free s h = both s (ground arith) (ground arith)
  where
    both : (s : Text) → is_in colon s ≡ false → is_in hash s ≡ false → Free ends_field s
    both [] a b = tt
    both (c ∷ s) a b = (ground arith, both s (ground arith) (ground arith))

Free-not_in : (c : ℕ) (s : Text) → Free (λ x. eqb x c) s → is_in c s ≡ false
Free-not_in c [] free = refl
Free-not_in c (d ∷ s) free = ground (arith, free.0, Free-not_in c s free.1)

field_print : (s rest : Text) → is_component s ≡ true → field (s ++ (colon ∷ rest)) ≡ some (s, rest)
unfolding field
field_print [] rest h = cc
field_print (c ∷ s) rest h =
    rw (span-append ends_field (c ∷ s) colon rest (component-Free (c ∷ s) h) refl) refl

hash-Free : (s : Text) → Free ends_field s → Free is_hash s
hash-Free [] free = tt
hash-Free (c ∷ s) free = (ground (arith, free.0), hash-Free s free.1)

dataset_print :
    (d : Text) (e : Option Text)
    → is_component d ≡ true
    → is_element e ≡ true
    → dataset_part (d ++ element_text e) ≡ some (d, e)
unfolding dataset_part
dataset_print [] e h k = cc
dataset_print (c ∷ d) none h k =
    let free = hash-Free (c ∷ d) (component-Free (c ∷ d) h) in
    rw append-nil (rw (span-all is_hash (c ∷ d) free) refl)
dataset_print (c ∷ d) (some []) h k = cc
dataset_print (c ∷ d) (some (x ∷ xs)) h k =
    let free = hash-Free (c ∷ d) (component-Free (c ∷ d) h) in
    let plain : is_in hash (x ∷ xs) ≡ false = ground arith in
    rw (span-append is_hash (c ∷ d) hash (x ∷ xs) free refl) (rw plain refl)

-- The text of a URN, its parts in their order.
abbrev parts : LineageUrn → Text
parts u =
    u.env
    ++ (colon
        ∷ (u.platform ++ (colon ∷ (u.system ++ (colon ∷ (u.dataset ++ element_text u.element))))))

to_text-parts : (u : LineageUrn) → to_text u ≡ scheme ++ parts u
unfolding to_text dataset_urn
to_text-parts u = simp append_assoc

strip-scheme : (s : Text) → strip scheme (scheme ++ s) ≡ some s
unfolding strip
strip-scheme s = refl

parse_print : (u : LineageUrn) → is_valid u ≡ true → parse (to_text u) ≡ some u
parse_print u v =
    let env : is_component u.env ≡ true = unfold is_valid in ground arith in
    let platform : is_component u.platform ≡ true = unfold is_valid in ground arith in
    let system : is_component u.system ≡ true = unfold is_valid in ground arith in
    let dataset : is_component u.dataset ≡ true = unfold is_valid in ground arith in
    let element : is_element u.element ≡ true = unfold is_valid in ground arith in
    let made : new_urn u ≡ some u = unfold new_urn in rw v refl in
    let after_system : Text = u.dataset ++ element_text u.element in
    let after_platform : Text = u.system ++ (colon ∷ after_system) in
    let after_env : Text = u.platform ++ (colon ∷ after_platform) in
    rw (to_text-parts u) (
      unfold parse in
      rw (strip-scheme (parts u)) (
        rw (field_print u.env after_env env) (
          rw (field_print u.platform after_platform platform) (
            rw (field_print u.system after_system system)
              (rw (dataset_print u.dataset u.element dataset element) made)))))

strip_ok : (p s r : Text) → strip p s ≡ some r → s ≡ p ++ r
unfolding strip
strip_ok [] s r h = ground arith
strip_ok (c ∷ p) [] r h = cc
strip_ok (c ∷ p) (d ∷ s) r h = ground (arith, strip_ok p s r)

after_colon_ok :
    (a b : Text) (r : Text × Text) → after_colon a b ≡ some r → (a ≡ r.0) × (b ≡ colon ∷ r.1)
after_colon_ok [] b r h = cc
after_colon_ok (c ∷ a) [] r h = cc
after_colon_ok (c ∷ a) (d ∷ b) r h = ground arith

field_ok : (s : Text) (r : Text × Text) → field s ≡ some r → s ≡ r.0 ++ (colon ∷ r.1)
unfolding field
field_ok s r h =
    let (a, b) = after_colon_ok (span ends_field s).0 (span ends_field s).1 r h in
    let (whole, _, _) = span_parts ends_field s in sym whole ∙ (rw (a, b) refl)

dataset_end_ok :
    (a b : Text) (r : Text × Option Text)
    → Begins is_hash b
    → dataset_end a b ≡ some r
    → a ++ b ≡ r.0 ++ element_text r.1
dataset_end_ok [] b r begins h = cc
dataset_end_ok (c ∷ a) [] r begins h = append-nil (c ∷ a) ∙ (ground (arith, h, append-nil a))
dataset_end_ok (c ∷ a) (d ∷ []) r begins h = cc
dataset_end_ok (c ∷ a) (d ∷ x ∷ xs) r begins h = ground (arith, h, begins)

dataset_ok :
    (s : Text) (r : Text × Option Text) → dataset_part s ≡ some r → s ≡ r.0 ++ element_text r.1
unfolding dataset_part
dataset_ok s r h =
    let (whole, _, begins) = span_parts is_hash s in
    sym whole ∙ dataset_end_ok (span is_hash s).0 (span is_hash s).1 r begins h

is_valid_ok : (u v : LineageUrn) → new_urn u ≡ some v → (v ≡ u) × (is_valid v ≡ true)
unfolding new_urn
is_valid_ok u v h = elim (Bool-cases (is_valid u)) [
  | inl good ↦ let same : v ≡ u = ground (arith, good, h) in (same, ap is_valid same ∙ good)
  | inr bad ↦ absurd (ground (arith, bad, h))
]

-- Inversion of a chain of optional steps.
some_ok :
    {A B : Type 0} (m : Option A) (f : A → Option B) (b : B)
    → (m >>= f) ≡ some b
    → (a : A) × (m ≡ some a) × (f a ≡ some b)
some_ok none f b h = cc
some_ok (some a) f b h = (a, refl, h)

print_parse : (s : Text) (u : LineageUrn) → parse s ≡ some u → (is_valid u ≡ true) × (to_text u ≡ s)
unfolding parse
print_parse s u h =
    let (rest, a, h1) = some_ok (strip scheme s) _ u h in
    let (env, b, h2) = some_ok (field rest) _ u h1 in
    let (platform, c, h3) = some_ok (field env.1) _ u h2 in
    let (system, d, h4) = some_ok (field platform.1) _ u h3 in
    let (tail, f, h5) = some_ok (dataset_part system.1) _ u h4 in
    let built : LineageUrn = record {
      env = env.0;
      platform = platform.0;
      system = system.0;
      dataset = tail.0;
      element = tail.1;
    } in
    let (same, good) = is_valid_ok built u h5 in
    let text : parts built ≡ rest = sym (
      field_ok rest env b
      ∙ ap (λ x. env.0 ++ (colon ∷ x))
          (field_ok env.1 platform c
            ∙ ap (λ x. platform.0 ++ (colon ∷ x))
                (field_ok platform.1 system d
                  ∙ ap (λ x. system.0 ++ (colon ∷ x)) (dataset_ok system.1 tail f)))) in
    (
      good,
      to_text-parts u
          ∙ ap (λ (x : LineageUrn). scheme ++ parts x) same
          ∙ ap (λ x. scheme ++ x) text
          ∙ sym (strip_ok scheme s rest a),
    )

-- A text parses to a URN exactly when the URN has valid components and is printed as that text.
pub parse-iff-to_text :
    (s : Text) (u : LineageUrn) → (parse s ≡ some u) ↔ ((is_valid u ≡ true) × (to_text u ≡ s))
parse-iff-to_text s u = (print_parse s u, λ (good, text). ap parse (sym text) ∙ parse_print u good)
